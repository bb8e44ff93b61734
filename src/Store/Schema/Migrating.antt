-- ===== src/Store/Schema/Migrating.antt =====
-- Lists of statements of the schema (internal/storage/sqlite.go): `Exec` of several, and `alterStmts`.
use google_in_a_day_crawler.Base.{
  subst, sym, ◌≢◌, ℕ, ◌≡◌, ◌∙◌, ap, refl, Bool, true, false, List, [], ◌∷◌, arith, length, inl, inr,
  ◌⊎◌,
}
use google_in_a_day_crawler.Store.Schema.{
  Schema, Statement, Result, made, duplicate, broken, exec, exec_all, alter_all,
}
use google_in_a_day_crawler.Store.Schema.Covering.{covers, Covers, exec-covers, exec-made}

unbroken :
    (ok : Bool) (st : Statement) (s : Schema)
    → (exec ok st s).1 ≢ broken
    → covers (exec ok st s).0 st ≡ true
unbroken ok st s n = ground (arith, n, exec-made ok st s)

result_cases : (r : Result) → (r ≡ made) ⊎ (r ≡ duplicate) ⊎ (r ≡ broken)
result_cases made = inl refl
result_cases duplicate = inr (inl refl)
result_cases broken = inr (inr refl)

-- The rest of the statements ran behind one that is covered.
rest_covers :
    (run : Schema × Bool) (st : Statement) (sts : List Statement) (r : Schema × Bool)
    → r ≡ run
    → covers run.0 st ≡ true
    → Covers run.0 sts
    → Covers r.0 (st ∷ sts)
rest_covers run st sts r e h k = subst (λ q. Covers q.0 (st ∷ sts)) (sym e) (h, k)

pub exec_all-made :
    (ok : ℕ → Bool) (st : Statement) (sts : List Statement) (s : Schema)
    → (exec (ok (length sts)) st s).1 ≡ made
    → exec_all ok (st ∷ sts) s ≡ exec_all ok sts (exec (ok (length sts)) st s).0
unfolding exec_all
exec_all-made ok st sts s e = rw (e, exec_all) refl

exec_all-duplicate :
    (ok : ℕ → Bool) (st : Statement) (sts : List Statement) (s : Schema)
    → (exec (ok (length sts)) st s).1 ≡ duplicate
    → exec_all ok (st ∷ sts) s ≡ ((exec (ok (length sts)) st s).0, false)
unfolding exec_all
exec_all-duplicate ok st sts s e = rw (e, exec_all) refl

exec_all-broken :
    (ok : ℕ → Bool) (st : Statement) (sts : List Statement) (s : Schema)
    → (exec (ok (length sts)) st s).1 ≡ broken
    → exec_all ok (st ∷ sts) s ≡ ((exec (ok (length sts)) st s).0, false)
unfolding exec_all
exec_all-broken ok st sts s e = rw (e, exec_all) refl

pub exec_all-covers :
    (ok : ℕ → Bool) (sts : List Statement) (s : Schema) (other : Statement)
    → covers s other ≡ true
    → covers (exec_all ok sts s).0 other ≡ true
unfolding exec_all
exec_all-covers ok [] s other h = h
exec_all-covers ok (st ∷ sts) s other h =
    let after = (exec (ok (length sts)) st s).0 in
    let kept = exec-covers (ok (length sts)) st s other h in
    let later = exec_all-covers ok sts after other kept in
    elim (result_cases (exec (ok (length sts)) st s).1) [
      | inl e ↦ ap (λ r. covers r.0 other) (exec_all-made ok st sts s e) ∙ later
      | inr (inl e) ↦ ap (λ r. covers r.0 other) (exec_all-duplicate ok st sts s e) ∙ kept
      | inr (inr e) ↦ ap (λ r. covers r.0 other) (exec_all-broken ok st sts s e) ∙ kept
    ]

pub exec_all-all_made :
    (ok : ℕ → Bool) (sts : List Statement) (s : Schema)
    → (exec_all ok sts s).1 ≡ true
    → Covers (exec_all ok sts s).0 sts
unfolding exec_all
exec_all-all_made ok [] s h = tt
exec_all-all_made ok (st ∷ sts) s h =
    let after = (exec (ok (length sts)) st s).0 in
    elim (result_cases (exec (ok (length sts)) st s).1) [
      | inl e ↦
          rest_covers (exec_all ok sts after) st sts (exec_all ok (st ∷ sts) s)
            (exec_all-made ok st sts s e)
            (exec_all-covers ok sts after st (unbroken (ok (length sts)) st s (ground (arith, e))))
            (exec_all-all_made ok sts after (sym (ap (λ r. r.1) (exec_all-made ok st sts s e)) ∙ h))
      | inr (inl e) ↦ ground (arith, h, ap (λ r. r.1) (exec_all-duplicate ok st sts s e))
      | inr (inr e) ↦ ground (arith, h, ap (λ r. r.1) (exec_all-broken ok st sts s e))
    ]

pub alter_all-made :
    (ok : ℕ → Bool) (st : Statement) (sts : List Statement) (s : Schema)
    → (exec (ok (length sts)) st s).1 ≡ made
    → alter_all ok (st ∷ sts) s ≡ alter_all ok sts (exec (ok (length sts)) st s).0
unfolding alter_all
alter_all-made ok st sts s e = rw (e, alter_all) refl

pub alter_all-duplicate :
    (ok : ℕ → Bool) (st : Statement) (sts : List Statement) (s : Schema)
    → (exec (ok (length sts)) st s).1 ≡ duplicate
    → alter_all ok (st ∷ sts) s ≡ alter_all ok sts (exec (ok (length sts)) st s).0
unfolding alter_all
alter_all-duplicate ok st sts s e = rw (e, alter_all) refl

alter_all-broken :
    (ok : ℕ → Bool) (st : Statement) (sts : List Statement) (s : Schema)
    → (exec (ok (length sts)) st s).1 ≡ broken
    → alter_all ok (st ∷ sts) s ≡ ((exec (ok (length sts)) st s).0, false)
unfolding alter_all
alter_all-broken ok st sts s e = rw (e, alter_all) refl

pub alter_all-covers :
    (ok : ℕ → Bool) (sts : List Statement) (s : Schema) (other : Statement)
    → covers s other ≡ true
    → covers (alter_all ok sts s).0 other ≡ true
unfolding alter_all
alter_all-covers ok [] s other h = h
alter_all-covers ok (st ∷ sts) s other h =
    let after = (exec (ok (length sts)) st s).0 in
    let kept = exec-covers (ok (length sts)) st s other h in
    let later = alter_all-covers ok sts after other kept in
    elim (result_cases (exec (ok (length sts)) st s).1) [
      | inl e ↦ ap (λ r. covers r.0 other) (alter_all-made ok st sts s e) ∙ later
      | inr (inl e) ↦ ap (λ r. covers r.0 other) (alter_all-duplicate ok st sts s e) ∙ later
      | inr (inr e) ↦ ap (λ r. covers r.0 other) (alter_all-broken ok st sts s e) ∙ kept
    ]

pub alter_all-all_made :
    (ok : ℕ → Bool) (sts : List Statement) (s : Schema)
    → (alter_all ok sts s).1 ≡ true
    → Covers (alter_all ok sts s).0 sts
unfolding alter_all
alter_all-all_made ok [] s h = tt
alter_all-all_made ok (st ∷ sts) s h =
    let after = (exec (ok (length sts)) st s).0 in
    elim (result_cases (exec (ok (length sts)) st s).1) [
      | inl e ↦
          rest_covers (alter_all ok sts after) st sts (alter_all ok (st ∷ sts) s)
            (alter_all-made ok st sts s e)
            (alter_all-covers ok sts after st (unbroken (ok (length sts)) st s (ground (arith, e))))
            (alter_all-all_made ok sts after
              (sym (ap (λ r. r.1) (alter_all-made ok st sts s e)) ∙ h))
      | inr (inl e) ↦
          rest_covers (alter_all ok sts after) st sts (alter_all ok (st ∷ sts) s)
            (alter_all-duplicate ok st sts s e)
            (alter_all-covers ok sts after st (unbroken (ok (length sts)) st s (ground (arith, e))))
            (alter_all-all_made ok sts after
              (sym (ap (λ r. r.1) (alter_all-duplicate ok st sts s e)) ∙ h))
      | inr (inr e) ↦ ground (arith, h, ap (λ r. r.1) (alter_all-broken ok st sts s e))
    ]

-- ===== src/Base/Rearranged.antt =====
-- What a rearrangement of a list leaves alone: a predicate on all members, the set of the members'
-- keys, and that no key stands twice.
use mathlib.Core.List.{Permᴰ}
use mathlib.Core.Path.{◌≡◌, refl, sym, ap, ◌∙◌, subst}
use mathlib.Core.List.{List, map}
use mathlib.Core.Bool.{false}
use native.Mathlib.Omega.{arith}
use google_in_a_day_crawler.Base.Lists.{All}
use google_in_a_day_crawler.Base.Keys.{Text, contains, Distinct}

pub All-perm {ℓ κ} :
    {A : Type ℓ} (P : A → Type κ) {xs ys : List A} → Permᴰ xs ys → All P xs → All P ys
All-perm P Permᴰ.nil h = h
All-perm P (Permᴰ.cons e p) h = (subst P e h.0, All-perm P p h.1)
All-perm P (Permᴰ.swap e d) h = (subst P d h.1.0, (subst P e h.0, h.1.1))
All-perm P (Permᴰ.trans p q) h = All-perm P q (All-perm P p h)

pub map-perm {ℓ κ} :
    {A : Type ℓ} {B : Type κ} (f : A → B) {xs ys : List A}
    → Permᴰ xs ys
    → Permᴰ (map f xs) (map f ys)
map-perm f Permᴰ.nil = Permᴰ.nil
map-perm f (Permᴰ.cons e p) = Permᴰ.cons (ap f e) (map-perm f p)
map-perm f (Permᴰ.swap e d) = Permᴰ.swap (ap f e) (ap f d)
map-perm f (Permᴰ.trans p q) = Permᴰ.trans (map-perm f p) (map-perm f q)

module _ {ℓ} {A : Type ℓ} (key : A → Text) where
  pub contains-perm :
      {xs ys : List A} (k : Text) → Permᴰ xs ys → contains k (map key xs) ≡ contains k (map key ys)
  unfolding contains
  contains-perm k Permᴰ.nil = refl
  contains-perm k (Permᴰ.cons e p) = ground (arith, ap key e, contains-perm k p)
  contains-perm k (Permᴰ.swap e d) = ground (arith, ap key e, ap key d)
  contains-perm k (Permᴰ.trans p q) = contains-perm k p ∙ contains-perm k q

  pub Distinct-perm : {xs ys : List A} → Permᴰ xs ys → Distinct (map key xs) → Distinct (map key ys)
  Distinct-perm Permᴰ.nil h = h
  Distinct-perm (Permᴰ.cons {a = a} {b = b} {l₂ = l₂} e p) h = (
    subst (λ k. contains k (map key l₂) ≡ false) (ap key e) (sym (contains-perm (key a) p) ∙ h.0),
    Distinct-perm p h.1,
  )
  Distinct-perm (Permᴰ.swap e d) h = unfold contains in ground (arith, ap key e, ap key d)
  Distinct-perm (Permᴰ.trans p q) h = Distinct-perm q (Distinct-perm p h)

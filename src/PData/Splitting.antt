-- ===== src/PData/Splitting.antt =====
-- How the lines of internal/storage/pdata.go are cut where no part holds the separator.
use google_in_a_day_crawler.Base.{
  append-nil, ap, ℕ, suc, ◌≡◌, ◌≢◌, refl, [], ◌∷◌, ◌++◌, some, Text, All, append_assoc, arith,
}
use google_in_a_day_crawler.PData.{cut, split_n, lines_from, drop_cr, newline}

abbrev pub Lacks : ℕ → Text → Type 0
Lacks b = All (λ c. c ≢ b)

pub cut-append :
    (sep : ℕ) (a rest : Text) → Lacks sep a → cut sep (a ++ sep ∷ rest) ≡ some (a, rest)
unfolding cut
cut-append sep [] rest h = ground arith
cut-append sep (c ∷ a) rest h = ground (arith, cut-append sep a rest h.1)

pub split_n-append :
    (sep n : ℕ) (a rest : Text)
    → Lacks sep a
    → split_n sep (suc n) (a ++ sep ∷ rest) ≡ a ∷ split_n sep n rest
unfolding split_n
split_n-append sep n a rest h = rw (cut-append sep a rest h, split_n)

pub lines_from_line :
    (line s rest : Text)
    → Lacks newline s
    → lines_from line (s ++ newline ∷ rest) ≡ (line ++ s) ∷ lines_from [] rest
unfolding lines_from
lines_from_line [] [] rest h = refl
lines_from_line (c ∷ line) [] rest h = ground (arith, append-nil line)
lines_from_line [] (d ∷ s) rest h = ground (arith, lines_from_line (d ∷ []) s rest h.1)
lines_from_line (c ∷ line) (d ∷ s) rest h =
    ground (arith, lines_from_line (c ∷ line ++ d ∷ []) s rest h.1, append_assoc line (d ∷ []) s)

pub drop_cr_plain : (s : Text) → Lacks 13 s → drop_cr s ≡ s
unfolding drop_cr
drop_cr_plain [] h = refl
drop_cr_plain (c ∷ []) h = ground arith
drop_cr_plain (c ∷ d ∷ s) h = ap (◌∷◌ c) (drop_cr_plain (d ∷ s) h.1)

pub drop_cr-append : (s t : Text) → t ≢ [] → drop_cr (s ++ t) ≡ s ++ drop_cr t
unfolding drop_cr
drop_cr-append [] t h = refl
drop_cr-append (c ∷ []) [] h = absurd (h refl)
drop_cr-append (c ∷ []) (d ∷ t) h = refl
drop_cr-append (c ∷ e ∷ s) t h = ap (◌∷◌ c) (drop_cr-append (e ∷ s) t h)

-- ===== src/Base/Keys.antt =====
-- Texts as lists of Unicode code points, and sets of texts as the lists of their members.
use Prim.Native.Char.{code}
use Prim.Native.Nat.{ℕ, suc, ◌+◌}
use Prim.Native.String.{String}
use mathlib.Core.Path.{◌≡◌, refl}
use mathlib.Core.Logic.{inl, inr, ite}
use mathlib.Core.Bool.{Bool, true, false, ◌||◌}
use mathlib.Core.List.{List, [], ◌∷◌, ◌++◌}
use native.Mathlib.Omega.{arith}
use native.Mathlib.Decide.{ℕ_discrete, dec_lt}
use google_in_a_day_crawler.Base.Tests.{ltb, Bool-cases}

-- A Go string that is valid UTF-8.
abbrev pub Text : Type 0
Text = List ℕ

abbrev pub codes : String → Text
codes String.[] = []
codes (String.◌∷◌ c s) = code c ∷ codes s

unfoldable pub Text_discrete : Discrete Text
unfolding ℕ_discrete
Text_discrete = hlevel ℕ_discrete

-- `set[k]` for a set that is a `map[string]bool`.
unfoldable pub contains : Text → List Text → Bool
contains k [] = false
contains k (x ∷ xs) = ite (Text_discrete x k) true (contains k xs)

-- The size of the UTF-8 encoding: what Go's `len` counts.
unfoldable pub rune_len : ℕ → ℕ
unfolding dec_lt
rune_len c = ite (dec_lt c 128) 1 (ite (dec_lt c 2048) 2 (ite (dec_lt c 65536) 3 4))

unfoldable pub utf8_len : Text → ℕ
unfolding rune_len
utf8_len [] = 0
utf8_len (c ∷ s) = rune_len c + utf8_len s

-- How often a text stands in a list.
unfoldable pub count : Text → List Text → ℕ
count k [] = 0
count k (x ∷ xs) = ite (Text_discrete x k) (suc (count k xs)) (count k xs)

-- The members of a list, each once, in the order of their first occurrence.
unfoldable pub keys_after : List Text → List Text → List Text
keys_after seen [] = []
keys_after seen (x ∷ xs) = elim (contains x seen) [
  | true ↦ keys_after seen xs
  | false ↦ x ∷ keys_after (x ∷ seen) xs
]

-- No member twice.
abbrev pub Distinct : List Text → Type 0
Distinct [] = Unit
Distinct (x ∷ xs) = (contains x xs ≡ false) × Distinct xs

pub contains_self : (k : Text) (xs : List Text) → contains k (k ∷ xs) ≡ true
unfolding contains
contains_self k xs = ground arith

pub contains-append :
    (k : Text) (xs ys : List Text) → contains k (xs ++ ys) ≡ (contains k xs || contains k ys)
unfolding contains
contains-append k [] ys = refl
contains-append k (x ∷ xs) ys = ground (arith, contains-append k xs ys)

pub contains-count : (k : Text) (xs : List Text) → contains k xs ≡ ltb 0 (count k xs)
unfolding contains count
contains-count k [] = refl
contains-count k (x ∷ xs) = ground (arith, contains-count k xs)

pub count-append : (k : Text) (xs ys : List Text) → count k (xs ++ ys) ≡ count k xs + count k ys
unfolding count
count-append k [] ys = omega arith
count-append k (x ∷ xs) ys = ground (arith, count-append k xs ys)

pub contains-keys_after :
    (k : Text) (seen xs : List Text)
    → (contains k seen || contains k (keys_after seen xs)) ≡ (contains k seen || contains k xs)
unfolding contains keys_after
contains-keys_after k seen [] = refl
contains-keys_after k seen (x ∷ xs) =
    ground (arith, contains-keys_after k seen xs, contains-keys_after k (x ∷ seen) xs)

pub keys_after-fresh :
    (k : Text) (seen xs : List Text)
    → contains k seen ≡ true
    → contains k (keys_after seen xs) ≡ false
unfolding contains keys_after
keys_after-fresh k seen [] h = refl
keys_after-fresh k seen (x ∷ xs) h =
    ground (arith, keys_after-fresh k seen xs, keys_after-fresh k (x ∷ seen) xs)

pub keys_after-Distinct : (seen xs : List Text) → Distinct (keys_after seen xs)
unfolding keys_after
keys_after-Distinct seen [] = tt
keys_after-Distinct seen (x ∷ xs) = elim (Bool-cases (contains x seen)) [
  | inl e ↦ rw (e, Distinct) (keys_after-Distinct seen xs)
  | inr e ↦
      rw (e, Distinct)
        (keys_after-fresh x (x ∷ seen) xs (contains_self x seen), keys_after-Distinct (x ∷ seen) xs)
]

abbrev sample_keys : List Text
sample_keys = codes "ab" ∷ codes "c" ∷ codes "ab" ∷ []

keys_after_test : keys_after [] sample_keys ≡ codes "ab" ∷ codes "c" ∷ []
unfolding keys_after contains Text_discrete
keys_after_test = refl

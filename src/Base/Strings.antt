-- ===== src/Base/Strings.antt =====
-- The functions of Go's package `strings` that the program calls, on texts.
use Prim.Native.Nat.{ℕ}
use mathlib.Core.Path.{◌≡◌}
use mathlib.Core.Bool.{Bool, true, false}
use mathlib.Core.List.{[], ◌∷◌, ◌++◌}
use mathlib.Core.Logic.{ite}
use native.Mathlib.Omega.{arith}
use google_in_a_day_crawler.Base.Tests.{◌==◌, if◌then◌else◌}
use google_in_a_day_crawler.Base.Keys.{Text, Text_discrete}

-- `strings.HasPrefix`.
unfoldable pub has_prefix : Text → Text → Bool
has_prefix s [] = true
has_prefix [] (p ∷ prefix) = false
has_prefix (c ∷ s) (p ∷ prefix) = let rest = has_prefix s prefix in if c == p then rest else false

-- `strings.HasSuffix`.
unfoldable pub has_suffix : Text → Text → Bool
has_suffix [] suffix = ite (Text_discrete [] suffix) true false
has_suffix (c ∷ s) suffix =
    let rest = has_suffix s suffix in ite (Text_discrete (c ∷ s) suffix) true rest

-- `strings.Contains`.
unfoldable pub contains_text : Text → Text → Bool
unfolding has_prefix
contains_text [] part = has_prefix [] part
contains_text (c ∷ s) part =
    let rest = contains_text s part in if has_prefix (c ∷ s) part then true else rest

-- `strings.TrimLeftFunc`.
unfoldable pub trim_left : (ℕ → Bool) → Text → Text
trim_left drop [] = []
trim_left drop (c ∷ s) = let rest = trim_left drop s in if drop c then rest else c ∷ s

-- `c ∷ rest`, but nothing where nothing follows a dropped character.
unfoldable pub before_trimmed : (ℕ → Bool) → ℕ → Text → Text
before_trimmed drop c [] = if drop c then [] else c ∷ []
before_trimmed drop c (d ∷ rest) = c ∷ d ∷ rest

-- `strings.TrimRightFunc`.
unfoldable pub trim_right : (ℕ → Bool) → Text → Text
unfolding before_trimmed
trim_right drop [] = []
trim_right drop (c ∷ s) = before_trimmed drop c (trim_right drop s)

-- `strings.TrimFunc`.
unfoldable pub trim : (ℕ → Bool) → Text → Text
unfolding trim_left trim_right
trim drop s = trim_right drop (trim_left drop s)

pub has_suffix-append : (s suffix : Text) → has_suffix (s ++ suffix) suffix ≡ true
unfolding has_suffix
has_suffix-append [] [] = ground arith
has_suffix-append [] (c ∷ suffix) = ground arith
has_suffix-append (c ∷ s) suffix = ground (arith, has_suffix-append s suffix)

-- ===== src/PData/Decimal.antt =====
-- The decimal integers that internal/storage/pdata.go writes with `%d` and reads with
-- `strconv.Atoi`.
use mathlib.Core.List.{cons-ne-nil}
use google_in_a_day_crawler.Base.{
  sym, length, inr, inl, Bool-cases, ◌∙◌, All-map, All, ◌≢◌, ℕ, zero, suc, ◌+◌, ◌-◌, ◌*◌, ◌/◌, ◌%◌,
  ◌^◌, ◌≤◌, ◌<◌, ◌≡◌, refl, true, false, ◌&&◌, [], ◌∷◌, Option, none, some, ◌>>=◌, ℤ, pos, negsuc,
  Text, leb, ltb, ◌==◌, if◌then◌else◌, arith,
}

-- The digits of a number before `out`; one unit of fuel is spent on a digit.
emit : ℕ → ℕ → Text → Text
emit zero n out = out
emit (suc f) n out =
    let digit = b'0' + n % 10 in
    let more = emit f (n / 10) (digit ∷ out) in if n / 10 == 0 then digit ∷ out else more

-- A number has fewer digits than n + 1.
unfoldable pub format_nat : ℕ → Text
unfolding emit
format_nat n = emit (suc n) n []

unfoldable pub format_int : ℤ → Text
unfolding format_nat
format_int (pos n) = format_nat n
format_int (negsuc n) = b'-' ∷ format_nat (suc n)

-- The value of the digits behind `n`; `none` where another character stands.
scan : Text → ℕ → Option ℕ
scan [] n = some n
scan (c ∷ s) n =
    let rest = scan s (n * 10 + (c - b'0')) in if leb b'0' c && leb c b'9' then rest else none

read_digits : Text → Option ℕ
unfolding scan
read_digits [] = none
read_digits (c ∷ s) = scan (c ∷ s) 0

positive : ℕ → Option ℤ
positive n = if ltb n (2 ^ 63) then some (pos n) else none

negative : ℕ → Option ℤ
negative zero = some (pos 0)
negative (suc n) = if ltb n (2 ^ 63) then some (negsuc n) else none

-- `strconv.Atoi`: an optional sign, one digit or more, and a value that fits 64 bits.
unfoldable pub atoi : Text → Option ℤ
unfolding read_digits positive negative
atoi [] = none
atoi (c ∷ s) = elim (c == b'-') [
  | true ↦ read_digits s >>= negative
  | false ↦ elim (c == b'+') [
    | true ↦ read_digits s >>= positive
    | false ↦ read_digits (c ∷ s) >>= positive
  ]
]

-- What a Go `int` can hold.
abbrev pub FitsInt : ℤ → Type 0
FitsInt (pos n) = n < 2 ^ 63
FitsInt (negsuc n) = n < 2 ^ 63

scan-digit : (d n : ℕ) (out : Text) → d < 10 → scan ((b'0' + d) ∷ out) n ≡ scan out (n * 10 + d)
unfolding scan
scan-digit d n out h = ground arith

scan-emit : (f n : ℕ) (out : Text) → n < f → scan (emit f n out) 0 ≡ scan out n
unfolding emit
scan-emit zero n out h = absurd (omega arith)
scan-emit (suc f) n out h = ground (
  arith,
  scan-digit (n % 10) 0 out,
  scan-digit (n % 10) (n / 10) out,
  scan-emit f (n / 10) ((b'0' + n % 10) ∷ out),
)

abbrev pub IsDigit : ℕ → Type 0
IsDigit c = (b'0' ≤ c) × (c ≤ b'9')

emit-All : (f n : ℕ) (out : Text) → All IsDigit out → All IsDigit (emit f n out)
unfolding emit
emit-All zero n out h = h
emit-All (suc f) n out h = elim (Bool-cases (n / 10 == 0)) [
  | inl e ↦ rw e (omega arith, h)
  | inr e ↦ rw e (emit-All f (n / 10) ((b'0' + n % 10) ∷ out) (omega arith, h))
]

emit-ne-nil : (f n : ℕ) (out : Text) → out ≢ [] → emit f n out ≢ []
unfolding emit
emit-ne-nil zero n out h = h
emit-ne-nil (suc f) n out h =
    ground (arith, emit-ne-nil f (n / 10) ((b'0' + n % 10) ∷ out) (cons-ne-nil (b'0' + n % 10) out))

format_nat-All : (n : ℕ) → All IsDigit (format_nat n)
unfolding format_nat
format_nat-All n = emit-All (suc n) n [] tt

format_nat-ne-nil : (n : ℕ) → format_nat n ≢ []
unfolding format_nat
format_nat-ne-nil n =
    ground (arith, emit-ne-nil n (n / 10) ((b'0' + n % 10) ∷ []) (cons-ne-nil (b'0' + n % 10) []))

read_digits-scan : (s : Text) → s ≢ [] → read_digits s ≡ scan s 0
unfolding read_digits
read_digits-scan [] h = absurd (h refl)
read_digits-scan (c ∷ s) h = refl

read_digits-format_nat : (n : ℕ) → read_digits (format_nat n) ≡ some n
read_digits-format_nat n =
    read_digits-scan (format_nat n) (format_nat-ne-nil n)
    ∙ unfold format_nat scan in scan-emit (suc n) n [] (omega arith)

-- A text that begins with a digit has no sign.
atoi_digits : (s : Text) → All IsDigit s → s ≢ [] → atoi s ≡ (read_digits s >>= positive)
unfolding atoi
atoi_digits [] h ne = absurd (ne refl)
atoi_digits (c ∷ s) h ne = ground arith

-- Every value of a Go `int` is read back from its decimal print.
pub atoi-format_int : (z : ℤ) → FitsInt z → atoi (format_int z) ≡ some z
unfolding format_int
atoi-format_int (pos n) h =
    rw
      (
        atoi_digits (format_nat n) (format_nat-All n) (format_nat-ne-nil n),
        read_digits-format_nat n,
      )
      (unfold positive in ground arith)
atoi-format_int (negsuc n) h = unfold atoi in rw (read_digits-format_nat (suc n)) (ground arith)

-- Neither a space nor a newline stands in it.
abbrev pub IsPlain : Text → Type 0
IsPlain = All (λ c. (c ≢ b' ') × (c ≢ 10))

-- A digit, the minus sign or one of the two characters between.
abbrev pub IsNumeral : ℕ → Type 0
IsNumeral c = (b'-' ≤ c) × (c ≤ b'9')

format_nat-IsNumeral : (n : ℕ) → All IsNumeral (format_nat n)
format_nat-IsNumeral n =
    All-map IsDigit IsNumeral (format_nat n) (λ c h. (omega arith, omega arith)) (format_nat-All n)

pub format_int-All : (z : ℤ) → All IsNumeral (format_int z)
unfolding format_int
format_int-All (pos n) = format_nat-IsNumeral n
format_int-All (negsuc n) = ((omega arith, omega arith), format_nat-IsNumeral (suc n))

pub format_int-ne-nil : (z : ℤ) → format_int z ≢ []
unfolding format_int
format_int-ne-nil (pos n) = format_nat-ne-nil n
format_int-ne-nil (negsuc n) = cons-ne-nil b'-' (format_nat (suc n))

pub atoi-format_nat : (n : ℕ) → n < 2 ^ 63 → atoi (format_nat n) ≡ some (pos n)
unfolding format_nat format_int
atoi-format_nat n h = atoi-format_int (pos n) h

zero_read : (s : Text) → read_digits (b'0' ∷ s) ≡ scan s 0
unfolding read_digits scan
zero_read s = refl

-- A leading zero changes nothing.
pub atoi-zero_format : (n : ℕ) → n < 2 ^ 63 → atoi (b'0' ∷ format_nat n) ≡ some (pos n)
atoi-zero_format n h =
    let skip : read_digits (b'0' ∷ format_nat n) ≡ scan (format_nat n) 0 =
      zero_read (format_nat n) in
    rw
      (atoi_digits (b'0' ∷ format_nat n) (omega arith, format_nat-All n)
        (cons-ne-nil b'0' (format_nat n)))
      (rw
        (
          skip,
          sym (read_digits-scan (format_nat n) (format_nat-ne-nil n)),
          read_digits-format_nat n,
        )
        (unfold positive in ground arith))

pub length-format_nat_short : (n : ℕ) → n < 10 → length (format_nat n) ≡ 1
unfolding format_nat emit
length-format_nat_short n h = ground arith

pub length-format_nat_two : (n : ℕ) → 10 ≤ n → n < 100 → length (format_nat n) ≡ 2
unfolding format_nat emit
length-format_nat_two zero h k = absurd (omega arith)
length-format_nat_two (suc n) h k = ground arith

-- ===== src/Strconv/RoundTrip.antt =====
-- ParseUint behind FormatUint.
use model_lib.Base.{
  ℕ, zero, suc, ◌+◌, ◌-◌, ◌/◌, ◌%◌, ◌*◌, ◌≤◌, ◌<◌, [], ◌∷◌, ◌++◌, append_assoc, append-nil, ◌≡◌,
  ◌≢◌, refl, sym, ap, ◌∙◌, arith, true, Bool-cases, inl, inr, ltb, Bytes, codes, All, All-append,
  ok,
}
use mathlib.Core.List.{concat-ne-nil}
use model_lib.Strconv.{is_digit, scan_digits, parse_uint, digits, format_uint}

abbrev pub AllDigits : Bytes → Type 0
AllDigits = All (λ c. is_digit c ≡ true)

digit_lem : (n : ℕ) → is_digit (b'0' + n % 10) ≡ true
unfolding is_digit
digit_lem n = ground arith

digits-AllDigits : (f n : ℕ) → AllDigits (digits f n)
unfolding digits
digits-AllDigits zero n = tt
digits-AllDigits (suc f) n = elim (Bool-cases (ltb n 10)) [
  | inl e ↦ rw e (digit_lem n, tt)
  | inr e ↦
      rw e (All-append _ (digits f (n / 10)) _ (digits-AllDigits f (n / 10)) (digit_lem n, tt))
]

pub format_uint-AllDigits : (n : ℕ) → AllDigits (format_uint n)
unfolding format_uint
format_uint-AllDigits n = digits-AllDigits (suc n) n

pub format_uint-ne-nil : (n : ℕ) → format_uint n ≢ []
unfolding format_uint
format_uint-ne-nil n = concat-ne-nil _ _

scan_one :
    (limit : ℕ) (whole rest : Bytes) (q n : ℕ)
    → q * 10 + n % 10 ≤ limit
    → scan_digits limit whole ((b'0' + n % 10) ∷ rest) q
      ≡ scan_digits limit whole rest (q * 10 + n % 10)
unfolding scan_digits
scan_one limit whole rest q n h = ground arith

pub scan_digits-digits :
    (f n limit : ℕ) (whole rest : Bytes)
    → n < f
    → n ≤ limit
    → scan_digits limit whole (digits f n ++ rest) 0 ≡ scan_digits limit whole rest n
unfolding digits
scan_digits-digits zero n limit whole rest h k = absurd (omega arith)
scan_digits-digits (suc f) n limit whole rest h k = elim (Bool-cases (ltb n 10)) [
  | inl e ↦ rw e (
      scan_one limit whole rest 0 n (omega arith)
      ∙ ap (scan_digits limit whole rest) (ground arith))
  | inr e ↦
      rw (e, append_assoc)
        (scan_digits-digits f (n / 10) limit whole _ (ground arith) (omega arith)
          ∙ scan_one limit whole rest (n / 10) n (omega arith)
          ∙ ap (scan_digits limit whole rest) (omega arith))
]

parse_uint-ne-nil : (limit : ℕ) (s : Bytes) → s ≢ [] → parse_uint limit s ≡ scan_digits limit s s 0
unfolding parse_uint
parse_uint-ne-nil limit [] h = absurd (h refl)
parse_uint-ne-nil limit (c ∷ s) h = refl

scan_format_uint :
    (limit n : ℕ) → n ≤ limit → scan_digits limit (format_uint n) (format_uint n ++ []) 0 ≡ ok n
unfolding scan_digits format_uint
scan_format_uint limit n h =
    scan_digits-digits (suc n) n limit (digits (suc n) n) [] (omega arith) h

-- ParseUint of a formatted number is that number, if it is within the limit.
pub parse_uint-format_uint : (limit n : ℕ) → n ≤ limit → parse_uint limit (format_uint n) ≡ ok n
parse_uint-format_uint limit n h =
    parse_uint-ne-nil limit (format_uint n) (format_uint-ne-nil n)
    ∙ ap (λ s. scan_digits limit (format_uint n) s 0) (sym (append-nil (format_uint n)))
    ∙ scan_format_uint limit n h

-- What ParseUint accepts is within the limit.
scan_digits-le :
    (limit : ℕ) (whole s : Bytes) (n m : ℕ)
    → n ≤ limit
    → scan_digits limit whole s n ≡ ok m
    → m ≤ limit
unfolding scan_digits
scan_digits-le limit whole [] n m h e = ground arith
scan_digits-le limit whole (c ∷ s) n m h e =
    ground (arith, scan_digits-le limit whole s (n * 10 + (c - b'0')) m)

pub parse_uint-le : (limit : ℕ) (s : Bytes) (n : ℕ) → parse_uint limit s ≡ ok n → n ≤ limit
unfolding parse_uint
parse_uint-le limit [] n e = cc
parse_uint-le limit (c ∷ s) n e = scan_digits-le limit (c ∷ s) (c ∷ s) 0 n (omega arith) e

format_max : format_uint 4294967295 ≡ codes "4294967295"
unfolding format_uint
format_max = refl

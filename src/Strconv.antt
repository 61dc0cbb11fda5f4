-- ===== src/Strconv.antt =====
-- Go's package `strconv`: ParseUint and FormatUint in base 10, Atoi and Itoa.
pub mod RoundTrip
use model_lib.Base.{
  ℕ, zero, suc, ◌+◌, ◌-◌, ◌*◌, ◌/◌, ◌%◌, ◌^◌, Bool, true, false, ◌&&◌, [], ◌∷◌, ◌++◌, leb, ltb,
  ◌==◌, if◌then◌else◌, Bytes, Result, ok, err, num_error, syntax, range, ◌>>=◌,
}
use model_lib.Base.Int.{ℤ, pos, negsuc, sub_ℕ}

unfoldable pub is_digit : ℕ → Bool
is_digit c = leb b'0' c && leb c b'9'

-- The loop of ParseUint over the digits that are left, `n` being their value so far and `whole` the
-- text of the error.
unfoldable pub scan_digits : ℕ → Bytes → Bytes → ℕ → Result ℕ
unfolding is_digit
scan_digits limit whole [] n = ok n
scan_digits limit whole (c ∷ s) n =
    let n' = n * 10 + (c - b'0') in
    let rest = scan_digits limit whole s n' in
    if is_digit c
    then (if ltb limit n' then err (num_error range whole) else rest)
    else err (num_error syntax whole)

-- strconv.ParseUint(s, 10, bits), `limit` being 2 ^ bits - 1.
unfoldable pub parse_uint : ℕ → Bytes → Result ℕ
unfolding scan_digits
parse_uint limit [] = err (num_error syntax [])
parse_uint limit (c ∷ s) = scan_digits limit (c ∷ s) (c ∷ s) 0

-- strconv.FormatUint(n, 10), on fuel: a number has fewer digits than its successor counts.
unfoldable pub digits : ℕ → ℕ → Bytes
digits zero n = []
digits (suc f) n =
    let front = digits f (n / 10) in (if ltb n 10 then [] else front) ++ (b'0' + n % 10) ∷ []

unfoldable pub format_uint : ℕ → Bytes
unfolding digits
format_uint n = digits (suc n) n

-- strconv.Atoi on a 64-bit `int`: a sign, then digits.
unfoldable pub atoi : Bytes → Result ℤ
unfolding parse_uint
atoi [] = err (num_error syntax [])
atoi (c ∷ s) =
    if c == b'-'
    then (do n ← parse_uint (2 ^ 63) s; ok (sub_ℕ 0 n))
    else if c == b'+'
    then (do n ← parse_uint (2 ^ 63 - 1) s; ok (pos n))
    else (do n ← parse_uint (2 ^ 63 - 1) (c ∷ s); ok (pos n))

-- strconv.Itoa, and %d of an `int`.
unfoldable pub itoa : ℤ → Bytes
unfolding format_uint
itoa (pos n) = format_uint n
itoa (negsuc n) = b'-' ∷ format_uint (n + 1)

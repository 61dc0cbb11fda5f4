-- ===== src/Awg/Header/Text.antt =====
-- awg_config.go: the text of an interval of header values.
use model_lib.Base.{
  ℕ, ◌≤◌, Bool-cases, List, [], ◌∷◌, ◌++◌, ◌≡◌, ◌≢◌, refl, ap, ◌∙◌, inl, inr, arith, ◌==◌, Bytes,
  All-append, ok, bind-eq-ok,
}
use model_lib.Strings.{is_space, trim_space, split}
use model_lib.Strings.Split.{Lacks, split-Lacks, split-append}
use model_lib.Strings.Trim.{NoSpace, trim_space-NoSpace}
use model_lib.Strconv.{is_digit, parse_uint, format_uint}
use model_lib.Strconv.RoundTrip.{
  AllDigits, format_uint-AllDigits, format_uint-ne-nil, parse_uint-format_uint, parse_uint-le,
}
use model_lib.Awg.Header.{
  max_u32, parse_upper, parse_parts, parse_trimmed, parse_magic_header_interval,
  format_magic_header_interval,
}

AllDigits-Lacks : (s : Bytes) → AllDigits s → Lacks b'-' s
AllDigits-Lacks [] h = tt
AllDigits-Lacks (c ∷ s) h = ((unfold is_digit in ground arith), AllDigits-Lacks s h.1)

AllDigits-NoSpace : (s : Bytes) → AllDigits s → NoSpace s
AllDigits-NoSpace [] h = tt
AllDigits-NoSpace (c ∷ s) h = ((unfold is_digit is_space in ground arith), AllDigits-NoSpace s h.1)

parse_trimmed-ne-nil : (s : Bytes) → s ≢ [] → parse_trimmed s ≡ parse_parts (split s b'-')
unfolding parse_trimmed
parse_trimmed-ne-nil [] h = absurd (h refl)
parse_trimmed-ne-nil (c ∷ s) h = refl

parse_parts_one :
    (p : Bytes) (n : ℕ) → p ≢ [] → parse_uint max_u32 p ≡ ok n → parse_parts (p ∷ []) ≡ ok (n, n)
unfolding parse_parts
parse_parts_one [] n h e = absurd (h refl)
parse_parts_one (c ∷ p) n h e = rw e

parse_parts_two :
    (p q : Bytes) (n m : ℕ)
    → p ≢ []
    → q ≢ []
    → parse_uint max_u32 p ≡ ok n
    → parse_uint max_u32 q ≡ ok m
    → n ≤ m
    → parse_parts (p ∷ q ∷ []) ≡ ok (n, m)
unfolding parse_parts
parse_parts_two [] q n m h k e f le = absurd (h refl)
parse_parts_two (c ∷ p) [] n m h k e f le = absurd (k refl)
parse_parts_two (c ∷ p) (d ∷ q) n m h k e f le = rw (e, f) (ground arith)

parse_one :
    (s : Bytes) (n : ℕ)
    → s ≢ []
    → AllDigits s
    → parse_uint max_u32 s ≡ ok n
    → parse_magic_header_interval s ≡ ok (n, n)
unfolding parse_magic_header_interval
parse_one s n h all e =
    rw (trim_space-NoSpace s (AllDigits-NoSpace s all), parse_trimmed-ne-nil s h)
      (rw (split-Lacks s b'-' (AllDigits-Lacks s all)) (parse_parts_one s n h e))

middle-ne-nil : (p q : Bytes) → p ++ b'-' ∷ q ≢ []
middle-ne-nil [] q = cc
middle-ne-nil (c ∷ p) q = cc

parse_two :
    (p q : Bytes) (n m : ℕ)
    → p ≢ []
    → q ≢ []
    → AllDigits p
    → AllDigits q
    → parse_uint max_u32 p ≡ ok n
    → parse_uint max_u32 q ≡ ok m
    → n ≤ m
    → parse_magic_header_interval (p ++ b'-' ∷ q) ≡ ok (n, m)
unfolding parse_magic_header_interval
parse_two p q n m h k dp dq e f le =
    rw (trim_space-NoSpace (p ++ b'-' ∷ q) spaceless, parse_trimmed-ne-nil _ (middle-ne-nil p q))
      (rw (split-append p q b'-' (AllDigits-Lacks p dp), split-Lacks q b'-' (AllDigits-Lacks q dq))
        (parse_parts_two p q n m h k e f le))
  where
    spaceless : NoSpace (p ++ b'-' ∷ q)
    spaceless =
        All-append _ p (b'-' ∷ q) (AllDigits-NoSpace p dp)
          ((unfold is_space in refl), AllDigits-NoSpace q dq)

-- Reading what `format_magic_header_interval` writes gives the interval back, for bounds that are
-- uint32 values in order.
pub parse-format :
    (n m : ℕ)
    → n ≤ m
    → m ≤ max_u32
    → parse_magic_header_interval (format_magic_header_interval n m) ≡ ok (n, m)
unfolding format_magic_header_interval
parse-format n m le h = elim (Bool-cases (n == m)) [
  | inl same ↦ rw same (
      parse_one (format_uint n) n (format_uint-ne-nil n) (format_uint-AllDigits n)
        (parse_uint-format_uint max_u32 n (omega arith))
      ∙ ap (λ k. ok (n, k)) (ground arith))
  | inr differ ↦ rw differ (
      parse_two (format_uint n) (format_uint m) n m (format_uint-ne-nil n) (format_uint-ne-nil m)
        (format_uint-AllDigits n) (format_uint-AllDigits m)
        (parse_uint-format_uint max_u32 n (omega arith)) (parse_uint-format_uint max_u32 m h) le)
]

parse_upper_bounds :
    (lower n m : ℕ) (part : Bytes) → parse_upper lower part ≡ ok (n, m) → (n ≤ m) × (m ≤ max_u32)
unfolding parse_upper
parse_upper_bounds lower n m [] e = cc
parse_upper_bounds lower n m (c ∷ part) e =
    let (k, parsed, rest) = bind-eq-ok (parse_uint max_u32 (c ∷ part)) _ e in
    ground (arith, parse_uint-le max_u32 (c ∷ part) k parsed)

parse_parts_bounds :
    (parts : List Bytes) (n m : ℕ) → parse_parts parts ≡ ok (n, m) → (n ≤ m) × (m ≤ max_u32)
unfolding parse_parts
parse_parts_bounds [] n m e = cc
parse_parts_bounds ([] ∷ parts) n m e = cc
parse_parts_bounds ((c ∷ part) ∷ []) n m e =
    let (k, parsed, rest) = bind-eq-ok (parse_uint max_u32 (c ∷ part)) _ e in
    ground (arith, parse_uint-le max_u32 (c ∷ part) k parsed)
parse_parts_bounds ((c ∷ part) ∷ upper ∷ []) n m e =
    let (k, parsed, rest) = bind-eq-ok (parse_uint max_u32 (c ∷ part)) _ e in
    parse_upper_bounds k n m upper rest
parse_parts_bounds ((c ∷ part) ∷ upper ∷ more ∷ parts) n m e = cc

parse_trimmed_bounds : (s : Bytes) (n m : ℕ) → parse_trimmed s ≡ ok (n, m) → (n ≤ m) × (m ≤ max_u32)
unfolding parse_trimmed
parse_trimmed_bounds [] n m e = cc
parse_trimmed_bounds (c ∷ s) n m e = parse_parts_bounds (split (c ∷ s) b'-') n m e

-- An interval that is read has its bounds in order and within uint32.
pub parse_bounds :
    (value : Bytes) (n m : ℕ)
    → parse_magic_header_interval value ≡ ok (n, m)
    → (n ≤ m) × (m ≤ max_u32)
unfolding parse_magic_header_interval
parse_bounds value n m e = parse_trimmed_bounds (trim_space value) n m e

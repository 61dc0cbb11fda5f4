-- ===== src/Awg/Header.antt =====
-- awg_config.go: the magic header intervals H1-H4, which are pairs of uint32.
pub mod Text
pub mod Overlap
use model_lib.Base.{
  ℕ, ◌-◌, ◌^◌, ◌+◌, Bool, true, false, ◌&&◌, ◌||◌, List, [], ◌∷◌, ◌++◌, leb, ltb, ◌==◌,
  if◌then◌else◌, Bytes, codes, Result, ok, err, message, ◌>>=◌,
}
use model_lib.Strings.{trim_space, split}
use model_lib.Strconv.{parse_uint, format_uint}

-- The greatest uint32.
abbrev pub max_u32 : ℕ
max_u32 = 2 ^ 32 - 1

abbrev pub empty_header : Bytes
empty_header = codes "empty magic header value"

abbrev pub bad_format : Bytes
bad_format = codes "invalid magic header range format"

abbrev pub bad_range : Bytes
bad_range = codes "invalid magic header range: lower bound cannot exceed upper bound"

-- The second part, where there is one, and the order of the two bounds.
parse_upper : ℕ → Bytes → Result (ℕ × ℕ)
parse_upper min_value [] = err (message bad_format)
parse_upper min_value (c ∷ part) = do
  max_value ← parse_uint max_u32 (c ∷ part)
  if ltb max_value min_value then err (message bad_range) else ok (min_value, max_value)

-- The parts of the text at its dashes.
parse_parts : List Bytes → Result (ℕ × ℕ)
unfolding parse_upper
parse_parts [] = err (message bad_format)
parse_parts ([] ∷ parts) = err (message bad_format)
parse_parts ((c ∷ part) ∷ []) = do
  min_value ← parse_uint max_u32 (c ∷ part)
  ok (min_value, min_value)
parse_parts ((c ∷ part) ∷ upper ∷ []) = do
  min_value ← parse_uint max_u32 (c ∷ part)
  parse_upper min_value upper
parse_parts ((c ∷ part) ∷ upper ∷ more ∷ parts) = err (message bad_format)

parse_trimmed : Bytes → Result (ℕ × ℕ)
unfolding parse_parts
parse_trimmed [] = err (message empty_header)
parse_trimmed (c ∷ s) = parse_parts (split (c ∷ s) b'-')

unfoldable pub parse_magic_header_interval : Bytes → Result (ℕ × ℕ)
unfolding parse_trimmed
parse_magic_header_interval value = parse_trimmed (trim_space value)

unfoldable pub format_magic_header_interval : ℕ → ℕ → Bytes
format_magic_header_interval min_value max_value =
    if min_value == max_value
    then format_uint min_value
    else format_uint min_value ++ b'-' ∷ format_uint max_value

pub record HeaderInterval : Type 0 where
  pub key : Bytes
  pub min : ℕ
  pub max : ℕ

unfoldable pub meets : HeaderInterval → HeaderInterval → Bool
meets left right = leb left.min right.max && leb right.min left.max

-- The inner loop, over the intervals behind `left`.
unfoldable pub meets_any : HeaderInterval → List HeaderInterval → Bool
unfolding meets
meets_any left [] = false
meets_any left (right ∷ rest) = if meets left right then true else meets_any left rest

unfoldable pub has_overlapping_header_intervals : List HeaderInterval → Bool
unfolding meets_any
has_overlapping_header_intervals [] = false
has_overlapping_header_intervals (left ∷ rest) =
    if meets_any left rest then true else has_overlapping_header_intervals rest

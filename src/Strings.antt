-- ===== src/Strings.antt =====
-- Go's package `strings`, as far as the program calls it, on texts as lists of code points.
pub mod Split
pub mod Trim
pub mod Around
use model_lib.Base.{
  ℕ, ◌+◌, Bool, true, false, ◌&&◌, ◌||◌, Option, none, some, List, [], ◌∷◌, ◌++◌, reverse, leb,
  ◌==◌, if◌then◌else◌, Bytes, length, drop, map,
}

unfoldable pub has_prefix : Bytes → Bytes → Bool
has_prefix s [] = true
has_prefix [] (p ∷ ps) = false
has_prefix (c ∷ s) (p ∷ ps) = c == p && has_prefix s ps

unfoldable pub has_suffix : Bytes → Bytes → Bool
unfolding has_prefix
has_suffix s suffix = has_prefix (reverse s) (reverse suffix)

unfoldable pub trim_prefix : Bytes → Bytes → Bytes
unfolding has_prefix
trim_prefix s prefix = if has_prefix s prefix then drop (length prefix) s else s

unfoldable pub contains : Bytes → Bytes → Bool
unfolding has_prefix
contains [] sub = has_prefix [] sub
contains (c ∷ s) sub = has_prefix (c ∷ s) sub || contains s sub

-- strings.Replace(s, old, new, 1) for an `old` that is not empty.
unfoldable pub replace_first : Bytes → Bytes → Bytes → Bytes
unfolding has_prefix
replace_first [] old new = []
replace_first (c ∷ s) old new =
    if has_prefix (c ∷ s) old then new ++ drop (length old) (c ∷ s) else c ∷ replace_first s old new

-- unicode.IsSpace
unfoldable pub is_space : ℕ → Bool
is_space c =
    (leb 9 c && leb c 13)
    || c == 32
    || c == 0x85
    || c == 0xa0
    || c == 0x1680
    || (leb 0x2000 c && leb c 0x200a)
    || c == 0x2028
    || c == 0x2029
    || c == 0x202f
    || c == 0x205f
    || c == 0x3000

unfoldable pub trim_left : Bytes → Bytes
unfolding is_space
trim_left [] = []
trim_left (c ∷ s) = if is_space c then trim_left s else c ∷ s

unfoldable pub trim_space : Bytes → Bytes
unfolding trim_left
trim_space s = reverse (trim_left (reverse (trim_left s)))

-- What `split` puts in front of the first of the later parts.
abbrev pub onto_first : ℕ → List Bytes → List Bytes
onto_first c [] = (c ∷ []) ∷ []
onto_first c (p ∷ ps) = (c ∷ p) ∷ ps

-- strings.Split for a separator of one code point.
unfoldable pub split : Bytes → ℕ → List Bytes
split [] sep = [] ∷ []
split (c ∷ s) sep = let rest = split s sep in if c == sep then [] ∷ rest else onto_first c rest

unfoldable pub join : List Bytes → ℕ → Bytes
join [] sep = []
join (p ∷ []) sep = p
join (p ∷ q ∷ ps) sep = p ++ sep ∷ join (q ∷ ps) sep

-- strings.ToLower on ASCII; the names and hosts that the program lowers are ASCII.
unfoldable pub to_lower : Bytes → Bytes
to_lower = map (λ c. if leb b'A' c && leb c b'Z' then c + 32 else c)

-- The least code point that strings.EqualFold takes for `c`, over the classes of the ASCII letters:
-- U+212A is the Kelvin sign, U+017F the long s.
unfoldable pub fold_case : ℕ → ℕ
fold_case c =
    if leb b'A' c && leb c b'Z'
    then c + 32
    else if c == 0x212a
    then b'k'
    else if c == 0x17f
    then b's'
    else c

-- strings.EqualFold where one of the two texts is ASCII.
unfoldable pub equal_fold : Bytes → Bytes → Bool
unfolding fold_case
equal_fold [] [] = true
equal_fold (x ∷ xs) (y ∷ ys) = fold_case x == fold_case y && equal_fold xs ys
equal_fold _ _ = false

-- strings.ReplaceAll for an `old` of two code points.
unfoldable pub replace_pair : Bytes → ℕ → ℕ → Bytes → Bytes
replace_pair [] a b new = []
replace_pair (c ∷ []) a b new = c ∷ []
replace_pair (c ∷ d ∷ s) a b new =
    let here = new ++ replace_pair s a b new in
    let later = c ∷ replace_pair (d ∷ s) a b new in if c == a && d == b then here else later

-- strings.ReplaceAll for an `old` of one code point.
unfoldable pub replace_char : Bytes → ℕ → Bytes → Bytes
replace_char [] a new = []
replace_char (c ∷ s) a new = (if c == a then new else c ∷ []) ++ replace_char s a new

-- The part in front of the first separator, and the part behind it: bytes.SplitN(s, sep, 2).
unfoldable pub split_once : Bytes → ℕ → Bytes × Option Bytes
split_once [] sep = ([], none)
split_once (c ∷ s) sep =
    let rest = split_once s sep in if c == sep then ([], some s) else (c ∷ rest.0, rest.1)

-- ===== src/Strings/Trim.antt =====
-- Laws of `trim_space`.
use model_lib.Base.{[], ◌∷◌, ◌≡◌, refl, arith, Bytes, All, false, reverse}
use mathlib.Core.List.{reverse-reverse, reverse_aux}
use model_lib.Strings.{is_space, trim_left, trim_space}

abbrev pub NoSpace : Bytes → Type 0
NoSpace = All (λ c. is_space c ≡ false)

trim_left-NoSpace : (s : Bytes) → NoSpace s → trim_left s ≡ s
unfolding trim_left
trim_left-NoSpace [] h = refl
trim_left-NoSpace (c ∷ s) h = ground arith

NoSpace-reverse_aux : (s acc : Bytes) → NoSpace s → NoSpace acc → NoSpace (reverse_aux s acc)
NoSpace-reverse_aux [] acc h k = k
NoSpace-reverse_aux (c ∷ s) acc h k = NoSpace-reverse_aux s (c ∷ acc) h.1 (h.0, k)

-- A text with no white space is left as it is.
pub trim_space-NoSpace : (s : Bytes) → NoSpace s → trim_space s ≡ s
unfolding trim_space
trim_space-NoSpace s h = simp (
  trim_left-NoSpace s h,
  trim_left-NoSpace (reverse s) (NoSpace-reverse_aux s [] h tt),
  reverse-reverse,
)

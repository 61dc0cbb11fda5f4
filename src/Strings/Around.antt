-- ===== src/Strings/Around.antt =====
-- What `trim_space` takes off.
use model_lib.Base.{
  ℕ, true, false, Bool-cases, [], ◌∷◌, ◌++◌, reverse, ◌≡◌, refl, sym, ap, ◌∙◌, inl, inr, Bytes, All,
}
use mathlib.Core.List.{reverse-reverse, reverse-append, reverse_aux}
use model_lib.Strings.{is_space, trim_left, trim_space}

-- White space only.
abbrev pub Blank : Bytes → Type 0
Blank = All (λ c. is_space c ≡ true)

trim_left-cut : (s : Bytes) → (left : Bytes) × (s ≡ left ++ trim_left s) × Blank left
unfolding trim_left
trim_left-cut [] = ([], refl, tt)
trim_left-cut (c ∷ s) = elim (Bool-cases (is_space c)) [
  | inl space ↦
      let (left, same, blank) = trim_left-cut s in
      (c ∷ left, rw space (ap (◌∷◌ c) same), (space, blank))
  | inr other ↦ ([], rw other refl, tt)
]

trim_left-Blank : (left s : Bytes) → Blank left → trim_left (left ++ s) ≡ trim_left s
unfolding trim_left
trim_left-Blank [] s h = refl
trim_left-Blank (c ∷ left) s h = rw (h.0) (trim_left-Blank left s h.1)

trim_left-text : (c : ℕ) (s : Bytes) → is_space c ≡ false → trim_left (c ∷ s) ≡ c ∷ s
unfolding trim_left
trim_left-text c s other = rw other refl

reverse_aux-Blank : (s acc : Bytes) → Blank s → Blank acc → Blank (reverse_aux s acc)
reverse_aux-Blank [] acc h k = k
reverse_aux-Blank (c ∷ s) acc h k = reverse_aux-Blank s (c ∷ acc) h.1 (h.0, k)

Blank-reverse : (s : Bytes) → Blank s → Blank (reverse s)
Blank-reverse s h = reverse_aux-Blank s [] h tt

-- A text is its trimmed part between white space.
pub trim_space-cut :
    (s : Bytes)
    → (left right : Bytes) × (s ≡ left ++ (trim_space s ++ right)) × Blank left × Blank right
unfolding trim_space
trim_space-cut s =
    let (left, same, blank) = trim_left-cut s in
    let (back, same', blank') = trim_left-cut (reverse (trim_left s)) in
    (
      left,
      reverse back,
      same
          ∙ ap (λ u. left ++ u)
              (sym (reverse-reverse (trim_left s))
                ∙ ap reverse same'
                ∙ reverse-append back (trim_left (reverse (trim_left s)))),
      blank,
      Blank-reverse back blank',
    )

-- The other direction, for a part that starts and ends with no white space.
pub trim_space-around :
    (left right m : Bytes) (c d : ℕ)
    → Blank left
    → Blank right
    → is_space c ≡ false
    → is_space d ≡ false
    → trim_space (left ++ ((c ∷ m ++ d ∷ []) ++ right)) ≡ c ∷ m ++ d ∷ []
unfolding trim_space
trim_space-around left right m c d hl hr hc hd =
    let text = c ∷ m ++ d ∷ [] in
    let front : trim_left (left ++ (text ++ right)) ≡ text ++ right =
      trim_left-Blank left (text ++ right) hl ∙ trim_left-text c ((m ++ d ∷ []) ++ right) hc in
    let ends : reverse text ≡ d ∷ reverse (c ∷ m) = reverse-append (c ∷ m) (d ∷ []) in
    let back : trim_left (reverse (text ++ right)) ≡ reverse text =
      ap trim_left (reverse-append text right)
      ∙ trim_left-Blank (reverse right) (reverse text) (Blank-reverse right hr)
      ∙ ap trim_left ends
      ∙ trim_left-text d (reverse (c ∷ m)) hd
      ∙ sym ends in
    ap (λ u. reverse (trim_left (reverse u))) front ∙ ap reverse back ∙ reverse-reverse text

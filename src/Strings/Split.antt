-- ===== src/Strings/Split.antt =====
-- Laws of `split` and `join`.
use model_lib.Base.{
  ℕ, List, [], ◌∷◌, ◌++◌, ◌≡◌, ◌≢◌, refl, arith, Bool-cases, inl, inr, Bytes, All, ◌==◌, Option,
  some, ap,
}
use model_lib.Strings.{split, join, onto_first, split_once}

abbrev pub Lacks : ℕ → Bytes → Type 0
Lacks sep = All (λ c. c ≢ sep)

pub split-ne-nil : (s : Bytes) (sep : ℕ) → split s sep ≢ []
unfolding split
split-ne-nil [] sep = cc
split-ne-nil (c ∷ s) sep = ground (arith, split-ne-nil s sep)

join-onto_first :
    (c sep : ℕ) (ps : List Bytes) → ps ≢ [] → join (onto_first c ps) sep ≡ c ∷ join ps sep
unfolding join
join-onto_first c sep [] h = absurd (h refl)
join-onto_first c sep (p ∷ []) h = refl
join-onto_first c sep (p ∷ q ∷ ps) h = refl

join-nil : (sep : ℕ) (ps : List Bytes) → ps ≢ [] → join ([] ∷ ps) sep ≡ sep ∷ join ps sep
unfolding join
join-nil sep [] h = absurd (h refl)
join-nil sep (p ∷ ps) h = refl

pub join-split : (s : Bytes) (sep : ℕ) → join (split s sep) sep ≡ s
unfolding split
join-split [] sep = unfold join in refl
join-split (c ∷ s) sep = ground (
  arith,
  join-split s sep,
  split-ne-nil s sep,
  join-nil sep (split s sep),
  join-onto_first c sep (split s sep),
)

-- A text without the separator is one part.
pub split-Lacks : (s : Bytes) (sep : ℕ) → Lacks sep s → split s sep ≡ s ∷ []
unfolding split
split-Lacks [] sep h = refl
split-Lacks (c ∷ s) sep h = ground (arith, split-Lacks s sep h.1)

-- The first part ends at the first separator.
pub split-append :
    (p s : Bytes) (sep : ℕ) → Lacks sep p → split (p ++ sep ∷ s) sep ≡ p ∷ split s sep
unfolding split
split-append [] s sep h = ground arith
split-append (c ∷ p) s sep h = ground (arith, split-append p s sep h.1)

-- No part holds the separator.
pub All-onto_first :
    (c sep : ℕ) (ps : List Bytes) → c ≢ sep → All (Lacks sep) ps → All (Lacks sep) (onto_first c ps)
All-onto_first c sep [] h all = ((h, tt), tt)
All-onto_first c sep (p ∷ ps) h all = ((h, all.0), all.1)

pub split-All-Lacks : (s : Bytes) (sep : ℕ) → All (Lacks sep) (split s sep)
unfolding split
split-All-Lacks [] sep = (tt, tt)
split-All-Lacks (c ∷ s) sep = elim (Bool-cases (c == sep)) [
  | inl e ↦ rw e (tt, split-All-Lacks s sep)
  | inr e ↦ rw e (All-onto_first c sep (split s sep) (ground arith) (split-All-Lacks s sep))
]

pub split_once-append :
    (u p : Bytes) (sep : ℕ) → Lacks sep u → split_once (u ++ sep ∷ p) sep ≡ (u, some p)
unfolding split_once
split_once-append [] p sep h = ground arith
split_once-append (c ∷ u) p sep h = ground (arith, split_once-append u p sep h.1)

pub split_once-some :
    (s u p : Bytes) (sep : ℕ) → split_once s sep ≡ (u, some p) → (s ≡ u ++ sep ∷ p) × Lacks sep u
unfolding split_once
split_once-some [] u p sep e = cc (ap (λ (x : Bytes × Option Bytes). x.1) e)
split_once-some (c ∷ s) [] p sep e = ground arith
split_once-some (c ∷ s) (d ∷ u) p sep e = ground (arith, split_once-some s u p sep)

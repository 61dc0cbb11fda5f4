-- ===== src/Awg/Header/Overlap.antt =====
-- awg_config.go: `hasOverlappingHeaderIntervals` against header values.
use model_lib.Base.{ℕ, ◌≤◌, false, Bool-cases, List, [], ◌∷◌, ◌≡◌, refl, ◌↔◌, inl, inr, arith, All}
use model_lib.Awg.Header.{HeaderInterval, meets, meets_any, has_overlapping_header_intervals}

-- The value `h` lies in the interval.
abbrev pub InInterval : ℕ → HeaderInterval → Type 0
InInterval h i = (i.min ≤ h) × (h ≤ i.max)

-- No value lies in both intervals.
abbrev pub Disjoint : HeaderInterval → HeaderInterval → Type 0
Disjoint left right = (h : ℕ) → InInterval h left → InInterval h right → ⊥

abbrev pub AllOrdered : List HeaderInterval → Type 0
AllOrdered = All (λ i. i.min ≤ i.max)

-- Any two intervals of the list, at different places, are disjoint.
abbrev pub AllDisjoint : List HeaderInterval → Type 0
AllDisjoint [] = Unit
AllDisjoint (i ∷ rest) = All (Disjoint i) rest × AllDisjoint rest

not_meets-Disjoint : (i j : HeaderInterval) → meets i j ≡ false → Disjoint i j
unfolding meets
not_meets-Disjoint i j e h hi hj = ground arith

Disjoint-not_meets :
    (i j : HeaderInterval) → i.min ≤ i.max → j.min ≤ j.max → Disjoint i j → meets i j ≡ false
unfolding meets
Disjoint-not_meets i j oi oj d = ground (arith, d i.min, d j.min)

meets_any-All :
    (i : HeaderInterval) (rest : List HeaderInterval)
    → meets_any i rest ≡ false
    → All (Disjoint i) rest
unfolding meets_any
meets_any-All i [] e = tt
meets_any-All i (j ∷ rest) e = elim (Bool-cases (meets i j)) [
  | inl m ↦ cc
  | inr m ↦ (not_meets-Disjoint i j m, meets_any-All i rest (rw m at e))
]

All-meets_any :
    (i : HeaderInterval) (rest : List HeaderInterval)
    → i.min ≤ i.max
    → AllOrdered rest
    → All (Disjoint i) rest
    → meets_any i rest ≡ false
unfolding meets_any
All-meets_any i [] oi o d = refl
All-meets_any i (j ∷ rest) oi o d =
    rw (Disjoint-not_meets i j oi o.0 d.0) (All-meets_any i rest oi o.1 d.1)

pub not_overlapping-AllDisjoint :
    (intervals : List HeaderInterval)
    → has_overlapping_header_intervals intervals ≡ false
    → AllDisjoint intervals
unfolding has_overlapping_header_intervals
not_overlapping-AllDisjoint [] e = tt
not_overlapping-AllDisjoint (i ∷ rest) e = elim (Bool-cases (meets_any i rest)) [
  | inl m ↦ cc
  | inr m ↦ (meets_any-All i rest m, not_overlapping-AllDisjoint rest (rw m at e))
]

AllDisjoint-not_overlapping :
    (intervals : List HeaderInterval)
    → AllOrdered intervals
    → AllDisjoint intervals
    → has_overlapping_header_intervals intervals ≡ false
unfolding has_overlapping_header_intervals
AllDisjoint-not_overlapping [] o d = refl
AllDisjoint-not_overlapping (i ∷ rest) o d =
    rw (All-meets_any i rest o.0 o.1 d.0) (AllDisjoint-not_overlapping rest o.1 d.1)

-- On intervals whose bounds are in order, the test is false exactly when no header value lies in
-- two of them.
pub overlapping_iff :
    (intervals : List HeaderInterval)
    → AllOrdered intervals
    → (has_overlapping_header_intervals intervals ≡ false) ↔ AllDisjoint intervals
overlapping_iff intervals o =
    (not_overlapping-AllDisjoint intervals, AllDisjoint-not_overlapping intervals o)

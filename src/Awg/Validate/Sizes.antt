-- ===== src/Awg/Validate/Sizes.antt =====
-- awg_config.go: the two loops over the packet sizes in `ValidateASecConfig`.
use model_lib.Base.{
  true, false, Bool-cases, List, [], ◌∷◌, ◌≡◌, ◌≢◌, refl, sym, ◌↔◌, inl, inr, arith, All, ok,
  bind-eq-ok,
}
use model_lib.Base.Int.{ℤ, eqb_ℤ}
use model_lib.Awg.Config.{ASecConfig}
use model_lib.Awg.Validate.{PacketSizeCheck, packet_sizes, check_size, check_sizes}
use model_lib.Awg.Validate.Spec.{initiation, response, cookie_reply, transport, SizesDiffer}

eqb_ℤ-false : (a b : ℤ) → a ≢ b → eqb_ℤ a b ≡ false
eqb_ℤ-false a b h = ground arith

eqb_ℤ_ne : (a b : ℤ) → eqb_ℤ a b ≡ false → a ≢ b
eqb_ℤ_ne a b e h = ground arith

-- The two sizes are different, if both are set.
abbrev Differ : PacketSizeCheck → PacketSizeCheck → Type 0
Differ p q = p.is_set ≡ true → q.is_set ≡ true → p.size ≢ q.size

abbrev AllDiffer : List PacketSizeCheck → Type 0
AllDiffer [] = Unit
AllDiffer (p ∷ rest) = All (Differ p) rest × AllDiffer rest

All-unset :
    (p : PacketSizeCheck) (rest : List PacketSizeCheck) → p.is_set ≡ false → All (Differ p) rest
All-unset p [] e = tt
All-unset p (q ∷ rest) e = ((λ h. cc), All-unset p rest e)

check_size-All :
    (c : ASecConfig) (p : PacketSizeCheck) (rest : List PacketSizeCheck)
    → check_size c p rest ≡ ok tt
    → All (Differ p) rest
unfolding check_size
check_size-All c p [] e = tt
check_size-All c p (q ∷ rest) e =
    ((λ h k. eqb_ℤ_ne p.size q.size (ground arith)), check_size-All c p rest (ground arith))

All-check_size :
    (c : ASecConfig) (p : PacketSizeCheck) (rest : List PacketSizeCheck)
    → p.is_set ≡ true
    → All (Differ p) rest
    → check_size c p rest ≡ ok tt
unfolding check_size
All-check_size c p [] s d = refl
All-check_size c p (q ∷ rest) s d = elim (Bool-cases q.is_set) [
  | inl h ↦ rw (h, eqb_ℤ-false p.size q.size (d.0 s h)) (All-check_size c p rest s d.1)
  | inr h ↦ rw h (All-check_size c p rest s d.1)
]

check_sizes-AllDiffer :
    (c : ASecConfig) (l : List PacketSizeCheck) → check_sizes c l ≡ ok tt → AllDiffer l
unfolding check_sizes
check_sizes-AllDiffer c [] e = tt
check_sizes-AllDiffer c (p ∷ rest) e = elim (Bool-cases p.is_set) [
  | inl h ↦
      let (_, first, later) = bind-eq-ok (check_size c p rest) _ (rw h at e) in
      (check_size-All c p rest first, check_sizes-AllDiffer c rest later)
  | inr h ↦ (All-unset p rest h, check_sizes-AllDiffer c rest (rw h at e))
]

AllDiffer-check_sizes :
    (c : ASecConfig) (l : List PacketSizeCheck) → AllDiffer l → check_sizes c l ≡ ok tt
unfolding check_sizes
AllDiffer-check_sizes c [] d = refl
AllDiffer-check_sizes c (p ∷ rest) d = elim (Bool-cases p.is_set) [
  | inl h ↦ rw (h, All-check_size c p rest h d.0) (AllDiffer-check_sizes c rest d.1)
  | inr h ↦ rw h (AllDiffer-check_sizes c rest d.1)
]

AllDiffer-SizesDiffer : (c : ASecConfig) → AllDiffer (packet_sizes c) → SizesDiffer c
unfolding packet_sizes
AllDiffer-SizesDiffer c d initiation response n h k e = d.0.0 h k e
AllDiffer-SizesDiffer c d initiation cookie_reply n h k e = d.0.1.0 h k e
AllDiffer-SizesDiffer c d initiation transport n h k e = d.0.1.1.0 h k e
AllDiffer-SizesDiffer c d response cookie_reply n h k e = d.1.0.0 h k e
AllDiffer-SizesDiffer c d response transport n h k e = d.1.0.1.0 h k e
AllDiffer-SizesDiffer c d cookie_reply transport n h k e = d.1.1.0.0 h k e
AllDiffer-SizesDiffer c d response initiation n h k e = d.0.0 k h (sym e)
AllDiffer-SizesDiffer c d cookie_reply initiation n h k e = d.0.1.0 k h (sym e)
AllDiffer-SizesDiffer c d transport initiation n h k e = d.0.1.1.0 k h (sym e)
AllDiffer-SizesDiffer c d cookie_reply response n h k e = d.1.0.0 k h (sym e)
AllDiffer-SizesDiffer c d transport response n h k e = d.1.0.1.0 k h (sym e)
AllDiffer-SizesDiffer c d transport cookie_reply n h k e = d.1.1.0.0 k h (sym e)
AllDiffer-SizesDiffer c d _ _ n h k e = n refl

SizesDiffer-AllDiffer : (c : ASecConfig) → SizesDiffer c → AllDiffer (packet_sizes c)
unfolding packet_sizes
SizesDiffer-AllDiffer c s = (
  (s initiation response (cc), (s initiation cookie_reply (cc), (s initiation transport (cc), tt))),
  (
    (s response cookie_reply (cc), (s response transport (cc), tt)),
    ((s cookie_reply transport (cc), tt), (tt, tt)),
  ),
)

pub check_sizes_iff : (c : ASecConfig) → (check_sizes c (packet_sizes c) ≡ ok tt) ↔ SizesDiffer c
check_sizes_iff c = (
  (λ e. AllDiffer-SizesDiffer c (check_sizes-AllDiffer c (packet_sizes c) e)),
  λ s. AllDiffer-check_sizes c (packet_sizes c) (SizesDiffer-AllDiffer c s),
)

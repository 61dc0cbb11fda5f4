-- ===== src/Net/OneLine.antt =====
-- The texts that SplitHostPort and JoinHostPort return hold no character that their arguments lack.
use model_lib.Base.{
  ℕ, Bool-cases, List, [], ◌∷◌, ◌++◌, ◌==◌, ◌≡◌, ◌≢◌, inl, inr, arith, Bytes, All, All-append, ok,
  subst,
}
use model_lib.Strings.{split}
use model_lib.Strings.Split.{Lacks, All-onto_first}
use model_lib.Net.{
  has_char, check_brackets, split_plain, split_behind, split_bracket, split_at, split_host_port,
  join_host_port,
}

-- Both parts lack it.
abbrev pub BothLack : ℕ → Bytes × Bytes → Type 0
BothLack c parts = Lacks c parts.0 × Lacks c parts.1

split-All : (s : Bytes) (sep c : ℕ) → Lacks c s → All (Lacks c) (split s sep)
unfolding split
split-All [] sep c h = (tt, tt)
split-All (d ∷ s) sep c h = elim (Bool-cases (d == sep)) [
  | inl e ↦ rw e (tt, split-All s sep c h.1)
  | inr e ↦ rw e (All-onto_first d c (split s sep) h.0 (split-All s sep c h.1))
]

check_brackets-Lack :
    (c : ℕ) (addr a b : Bytes) (parts : Bytes × Bytes) {r : Bytes × Bytes}
    → BothLack c parts
    → check_brackets addr a b parts ≡ ok r
    → BothLack c r
unfolding check_brackets
check_brackets-Lack c addr a b parts h e = subst (BothLack c) (ground (arith, e)) h

split_plain-Lack :
    (c : ℕ) (addr : Bytes) (parts : List Bytes) {r : Bytes × Bytes}
    → All (Lacks c) parts
    → split_plain addr parts ≡ ok r
    → BothLack c r
unfolding split_plain
split_plain-Lack c addr (host ∷ port ∷ []) h e =
    check_brackets-Lack c addr addr addr (host, port) (h.0, h.1.0) e
split_plain-Lack c addr (host ∷ part ∷ more ∷ parts) h e = cc
split_plain-Lack c addr (host ∷ []) h e = cc
split_plain-Lack c addr [] h e = cc

split_behind-Lack :
    (c : ℕ) (addr host s : Bytes) {r : Bytes × Bytes}
    → Lacks c host
    → Lacks c s
    → split_behind addr host s ≡ ok r
    → BothLack c r
unfolding split_behind
split_behind-Lack c addr host [] h k e = cc
split_behind-Lack c addr host (d ∷ port) h k e = elim (Bool-cases (d == b':')) [
  | inr other ↦ absurd (ground (arith, e, other))
  | inl colon ↦ elim (Bool-cases (has_char port b':')) [
    | inl many ↦ absurd (ground (arith, e, colon, many))
    | inr one ↦
        check_brackets-Lack c addr (host ++ b']' ∷ d ∷ port) (d ∷ port) (host, port) (h, k.1)
          (ground (arith, e, colon, one))
  ]
]

split_bracket-Lack :
    (c : ℕ) (addr host s : Bytes) {r : Bytes × Bytes}
    → Lacks c host
    → Lacks c s
    → split_bracket addr host s ≡ ok r
    → BothLack c r
unfolding split_bracket
split_bracket-Lack c addr host [] h k e = cc
split_bracket-Lack c addr host (d ∷ s) h k e = elim (Bool-cases (d == b']')) [
  | inl end ↦ split_behind-Lack c addr host s h k.1 (rw end at e)
  | inr more ↦
      split_bracket-Lack c addr (host ++ d ∷ []) s
        (All-append (λ x. x ≢ c) host (d ∷ []) h (k.0, tt)) k.1 (rw more at e)
]

split_at-Lack :
    (c : ℕ) (addr s : Bytes) {r : Bytes × Bytes} → Lacks c s → split_at addr s ≡ ok r → BothLack c r
unfolding split_at
split_at-Lack c addr [] h e = cc
split_at-Lack c addr (d ∷ s) h e = elim (Bool-cases (d == b'[')) [
  | inl bracket ↦ split_bracket-Lack c addr [] s tt h.1 (rw bracket at e)
  | inr plain ↦
      split_plain-Lack c addr (split (d ∷ s) b':') (split-All (d ∷ s) b':' c h) (rw plain at e)
]

pub split_host_port-Lack :
    (c : ℕ) (s : Bytes) {r : Bytes × Bytes} → Lacks c s → split_host_port s ≡ ok r → BothLack c r
unfolding split_host_port
split_host_port-Lack c s h e = elim (Bool-cases (has_char s b':')) [
  | inl colon ↦ split_at-Lack c s s h (rw colon at e)
  | inr none_ ↦ cc (rw none_ at e)
]

pub join_host_port-OneLine :
    (host port : Bytes)
    → Lacks b'\n' host
    → Lacks b'\n' port
    → Lacks b'\n' (join_host_port host port)
unfolding join_host_port
join_host_port-OneLine host port h p = elim (Bool-cases (has_char host b':')) [
  | inl colon ↦ rw colon (
    omega arith,
    All-append (λ x. x ≢ b'\n') host (b']' ∷ b':' ∷ port) h (omega arith, (omega arith, p)),
  )
  | inr plain ↦ rw plain (All-append (λ x. x ≢ b'\n') host (b':' ∷ port) h (omega arith, p))
]

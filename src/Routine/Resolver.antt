-- ===== src/Routine/Resolver.antt =====
-- Which address the resolver returns.
use model_lib.Base.{
  List, [], ◌∷◌, ◌≡◌, ◌↔◌, ◌⊎◌, refl, sym, ap, ◌∙◌, arith, inl, inr, Bytes, Error, Result, ok, err,
  Result-cases,
}
use model_lib.Config.Types.{Addr}
use model_lib.Routine.{
  Lookups, lookup_addr, first_addr, zero_addr, pick_addr, resolve_addr_with_context,
}

abbrev pub IsIn : Bytes → List Bytes → Type 0
IsIn s [] = ⊥
IsIn s (t ∷ rest) = (t ≡ s) ⊎ IsIn s rest

-- What rand.Shuffle keeps: the texts, and that there is one.
pub record Shuffles (shuffle : List Bytes → List Bytes) : Type 0 where
  pub texts : (s : Bytes) (l : List Bytes) → IsIn s (shuffle l) ↔ IsIn s l

-- A text of the list that parses as `a`.
abbrev pub Parses : (Bytes → Result Addr) → List Bytes → Addr → Type 0
Parses parse l a = (s : Bytes) × IsIn s l × (parse s ≡ ok a)

first_addr-cons :
    (parse : Bytes → Result Addr) (last : Result Addr) (s : Bytes) (rest : List Bytes)
    → ((a : Addr) × (parse s ≡ ok a) × (first_addr parse last (s ∷ rest) ≡ ok a))
      ⊎ ((e : Error) × (parse s ≡ err e)
          × (first_addr parse last (s ∷ rest) ≡ first_addr parse (err e) rest))
unfolding first_addr
first_addr-cons parse last s rest = elim (Result-cases (parse s)) [
  | inl (a, e) ↦ inl (a, e, rw (first_addr, e))
  | inr (x, e) ↦ inr (x, e, rw (first_addr, e))
]

first_addr-Parses :
    (parse : Bytes → Result Addr) (last : Result Addr) (l : List Bytes) {a : Addr}
    → first_addr parse last l ≡ ok a
    → (last ≡ ok a) ⊎ Parses parse l a
first_addr-Parses parse last [] e = inl (unfold first_addr in e)
first_addr-Parses parse last (s ∷ rest) {a} e = elim (first_addr-cons parse last s rest) [
  | inl (b, found, same) ↦ inr (s, inl refl, found ∙ sym same ∙ e)
  | inr (x, failed, same) ↦ elim (first_addr-Parses parse (err x) rest (sym same ∙ e)) [
    | inl no_ ↦ cc
    | inr (t, i, parsed) ↦ inr (t, inr i, parsed)
  ]
]

Parses-first_addr :
    (parse : Bytes → Result Addr) (last : Result Addr) (l : List Bytes) (t : Bytes) {a : Addr}
    → IsIn t l
    → parse t ≡ ok a
    → (b : Addr) × (first_addr parse last l ≡ ok b)
Parses-first_addr parse last [] t i e = absurd i
Parses-first_addr parse last (s ∷ rest) t i e = elim (first_addr-cons parse last s rest) [
  | inl (b, found, same) ↦ (b, same)
  | inr (x, failed, same) ↦
      let there : IsIn t rest = elim i [
        | inl here ↦ cc (ap parse here, e, failed)
        | inr more ↦ more
      ] in
      let (b, result) = Parses-first_addr parse (err x) rest t there e in (b, same ∙ result)
]

-- An address of a list that is not empty was parsed from a text of the list.
first_addr-cons-Parses :
    (parse : Bytes → Result Addr) (l : List Bytes) (s : Bytes) {a : Addr}
    → IsIn s l
    → first_addr parse (ok zero_addr) l ≡ ok a
    → Parses parse l a
first_addr-cons-Parses parse [] s i e = absurd i
first_addr-cons-Parses parse (t ∷ rest) s {a} i e =
    elim (first_addr-cons parse (ok zero_addr) t rest) [
      | inl (b, found, same) ↦ (t, inl refl, found ∙ sym same ∙ e)
      | inr (x, failed, same) ↦ elim (first_addr-Parses parse (err x) rest (sym same ∙ e)) [
        | inl no_ ↦ cc
        | inr (u, j, parsed) ↦ (u, inr j, parsed)
      ]
    ]

pick_addr-Parses :
    (w : Lookups) (name : Bytes) (addrs : List Bytes) {a : Addr}
    → Shuffles w.shuffle
    → pick_addr w name addrs ≡ ok a
    → Parses w.parse_addr addrs a
unfolding pick_addr
pick_addr-Parses w name [] shuffles e = cc
pick_addr-Parses w name (s ∷ rest) shuffles e =
    let (t, i, parsed) =
      first_addr-cons-Parses w.parse_addr (w.shuffle (s ∷ rest)) s
        ((shuffles.texts s (s ∷ rest)).1 (inl refl)) (ground (arith, e)) in
    (t, (shuffles.texts t (s ∷ rest)).0 i, parsed)

Parses-pick_addr :
    (w : Lookups) (name : Bytes) (addrs : List Bytes) (t : Bytes) {a : Addr}
    → Shuffles w.shuffle
    → IsIn t addrs
    → w.parse_addr t ≡ ok a
    → (b : Addr) × (pick_addr w name addrs ≡ ok b)
unfolding pick_addr
Parses-pick_addr w name [] t shuffles i e = absurd i
Parses-pick_addr w name (s ∷ rest) t shuffles i e =
    let (b, result) =
      Parses-first_addr w.parse_addr (ok zero_addr) (w.shuffle (s ∷ rest)) t
        ((shuffles.texts t (s ∷ rest)).1 i) e in
    (b, ground (arith, result))

-- The resolver returns an address exactly if one of the texts that the lookup of the name has found
-- parses, whatever the order that they are shuffled into, and the address is parsed from one of them.
pub resolve_addr-Parses :
    (w : Lookups) (name : Bytes) (addrs : List Bytes)
    → Shuffles w.shuffle
    → lookup_addr w name ≡ ok addrs
    → ((a : Addr) → resolve_addr_with_context w name ≡ ok a → Parses w.parse_addr addrs a)
      × ((a : Addr)
          → Parses w.parse_addr addrs a
          → (b : Addr) × (resolve_addr_with_context w name ≡ ok b))
unfolding resolve_addr_with_context
resolve_addr-Parses w name addrs shuffles found = (
  (λ a e. pick_addr-Parses w name addrs shuffles (rw (resolve_addr_with_context, found) at e)),
  λ a (t, i, e).
      let (b, result) = Parses-pick_addr w name addrs t shuffles i e in
      (b, rw (resolve_addr_with_context, found) result),
)

-- ===== src/Adapter/Letters.antt =====
-- cmd/config-adapter/main.go: which texts strings.EqualFold takes for `[Socks5]`.
use model_lib.Base.{
  ℕ, true, List, [], ◌∷◌, ◌++◌, ◌≡◌, ◌↔◌, ◌⊎◌, refl, ap, ◌∙◌, arith, Bytes, codes, Each, nil, cons,
}
use model_lib.Strings.{fold_case, equal_fold}

abbrev pub in_brackets : Bytes → Bytes
in_brackets body = b'[' ∷ body ++ b']' ∷ []

abbrev pub OneOf : Bytes → ℕ → Type 0
OneOf [] c = ⊥
OneOf (d ∷ choices) c = (c ≡ d) ⊎ OneOf choices c

-- The word is spelled with one of the choices for each of its letters.
abbrev pub Spells : Bytes → List Bytes → Type 0
Spells [] [] = Unit
Spells (c ∷ word) (choices ∷ letters) = OneOf choices c × Spells word letters
Spells [] (choices ∷ letters) = ⊥
Spells (c ∷ word) [] = ⊥

-- `Socks5` in any case; Unicode has a long s, U+017F, and the Kelvin sign, U+212A.
abbrev pub socks5_letters : List Bytes
socks5_letters =
    (b'S' ∷ b's' ∷ 0x17f ∷ [])
    ∷ (b'O' ∷ b'o' ∷ [])
    ∷ (b'C' ∷ b'c' ∷ [])
    ∷ (b'K' ∷ b'k' ∷ 0x212a ∷ [])
    ∷ (b'S' ∷ b's' ∷ 0x17f ∷ [])
    ∷ (b'5' ∷ [])
    ∷ []

fold-cons :
    (t : Bytes) (y : ℕ) (ys : Bytes)
    → equal_fold t (y ∷ ys) ≡ true
    → (c : ℕ) × (s : Bytes) × (t ≡ c ∷ s) × (fold_case c ≡ fold_case y) × (equal_fold s ys ≡ true)
unfolding equal_fold
fold-cons [] y ys e = cc
fold-cons (c ∷ s) y ys e = (c, s, refl, ground (arith, e), ground (arith, e))

fold-nil : (t : Bytes) → equal_fold t [] ≡ true → t ≡ []
unfolding equal_fold
fold-nil [] e = refl
fold-nil (c ∷ s) e = cc

-- What folds to the letters of `[Socks5]`.
letter-s : (c : ℕ) → (fold_case c ≡ b's') ↔ OneOf (b'S' ∷ b's' ∷ 0x17f ∷ []) c
unfolding fold_case
letter-s c = ground arith

letter-o : (c : ℕ) → (fold_case c ≡ b'o') ↔ OneOf (b'O' ∷ b'o' ∷ []) c
unfolding fold_case
letter-o c = ground arith

letter-c : (c : ℕ) → (fold_case c ≡ b'c') ↔ OneOf (b'C' ∷ b'c' ∷ []) c
unfolding fold_case
letter-c c = ground arith

letter-k : (c : ℕ) → (fold_case c ≡ b'k') ↔ OneOf (b'K' ∷ b'k' ∷ 0x212a ∷ []) c
unfolding fold_case
letter-k c = ground arith

letter-five : (c : ℕ) → (fold_case c ≡ b'5') ↔ OneOf (b'5' ∷ []) c
unfolding fold_case
letter-five c = ground arith

letter-bracket : (c : ℕ) → ((fold_case c ≡ b'[') → c ≡ b'[') × ((fold_case c ≡ b']') → c ≡ b']')
unfolding fold_case
letter-bracket c = ground arith

pub equal_fold-Spells :
    (t : Bytes)
    → equal_fold t (codes "[Socks5]") ≡ true
    → (body : Bytes) × (t ≡ in_brackets body) × Spells body socks5_letters
unfolding fold_case
equal_fold-Spells t e =
    let (c0, t0, s0, f0, e0) = fold-cons t b'[' (codes "Socks5]") e in
    let (c1, t1, s1, f1, e1) = fold-cons t0 b'S' (codes "ocks5]") e0 in
    let (c2, t2, s2, f2, e2) = fold-cons t1 b'o' (codes "cks5]") e1 in
    let (c3, t3, s3, f3, e3) = fold-cons t2 b'c' (codes "ks5]") e2 in
    let (c4, t4, s4, f4, e4) = fold-cons t3 b'k' (codes "s5]") e3 in
    let (c5, t5, s5, f5, e5) = fold-cons t4 b's' (codes "5]") e4 in
    let (c6, t6, s6, f6, e6) = fold-cons t5 b'5' (codes "]") e5 in
    let (c7, t7, s7, f7, e7) = fold-cons t6 b']' [] e6 in
    let opened = (letter-bracket c0).0 f0 in
    let closed = (letter-bracket c7).1 f7 in
    let last = fold-nil t7 e7 in
    (
      c1 ∷ c2 ∷ c3 ∷ c4 ∷ c5 ∷ c6 ∷ [],
      s0
          ∙ (λ i. opened i ∷ s1 i)
          ∙ ap (λ l. b'[' ∷ c1 ∷ l)
              (s2
                ∙ ap (◌∷◌ c2) (
                    s3
                    ∙ ap (◌∷◌ c3) (
                        s4
                        ∙ ap (◌∷◌ c4) (
                            s5 ∙ ap (◌∷◌ c5) (s6 ∙ ap (◌∷◌ c6) (s7 ∙ (λ i. closed i ∷ last i))))))),
      (
        (letter-s c1).0 f1,
        (
          (letter-o c2).0 f2,
          (
            (letter-c c3).0 f3,
            ((letter-k c4).0 f4, ((letter-s c5).0 f5, ((letter-five c6).0 f6, tt))),
          ),
        ),
      ),
    )

Each-equal_fold :
    {t ys : Bytes} → Each (λ x y. fold_case x ≡ fold_case y) t ys → equal_fold t ys ≡ true
unfolding equal_fold
Each-equal_fold nil = refl
Each-equal_fold (cons e more) = ground (arith, e, Each-equal_fold more)

pub Spells-equal_fold :
    (body : Bytes)
    → Spells body socks5_letters
    → equal_fold (in_brackets body) (codes "[Socks5]") ≡ true
unfolding fold_case equal_fold
Spells-equal_fold (c1 ∷ c2 ∷ c3 ∷ c4 ∷ c5 ∷ c6 ∷ []) (h1, (h2, (h3, (h4, (h5, (h6, _)))))) =
    let close = cons {a = b']'} {b = b']'} refl nil in
    let l6 = cons {a = c6} {b = b'5'} ((letter-five c6).1 h6) close in
    let l5 = cons {a = c5} {b = b's'} ((letter-s c5).1 h5) l6 in
    let l4 = cons {a = c4} {b = b'k'} ((letter-k c4).1 h4) l5 in
    let l3 = cons {a = c3} {b = b'c'} ((letter-c c3).1 h3) l4 in
    let l2 = cons {a = c2} {b = b'o'} ((letter-o c2).1 h2) l3 in
    let l1 = cons {a = c1} {b = b'S'} ((letter-s c1).1 h1) l2 in
    Each-equal_fold (cons {a = b'['} {b = b'['} refl l1)
Spells-equal_fold [] h = absurd h
Spells-equal_fold (c1 ∷ []) h = absurd h.1
Spells-equal_fold (c1 ∷ c2 ∷ []) h = absurd h.1.1
Spells-equal_fold (c1 ∷ c2 ∷ c3 ∷ []) h = absurd h.1.1.1
Spells-equal_fold (c1 ∷ c2 ∷ c3 ∷ c4 ∷ []) h = absurd h.1.1.1.1
Spells-equal_fold (c1 ∷ c2 ∷ c3 ∷ c4 ∷ c5 ∷ []) h = absurd h.1.1.1.1.1
Spells-equal_fold (c1 ∷ c2 ∷ c3 ∷ c4 ∷ c5 ∷ c6 ∷ c7 ∷ body) h = absurd h.1.1.1.1.1.1

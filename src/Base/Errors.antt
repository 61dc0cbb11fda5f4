-- ===== src/Base/Errors.antt =====
-- Go's pairs `(value, err)`: a value, or an error. An error is its text, or for `strconv` its kind
-- and the text that was parsed.
use Prim.Native.Nat.{ℕ}
use mathlib.Core.Path.{◌≡◌, refl, ap, ◌∙◌}
use mathlib.Core.Logic.{◌⊎◌, inl, inr}
use mathlib.Core.List.{List, [], ◌∷◌}

pub data NumFault : Type 0 where
  syntax range : NumFault

-- `message` is errors.New; `wrapped` is fmt.Errorf with %w; `foreign` is what a package outside the
-- repository returned, with its text.
pub data Error : Type 0 where
  message foreign : List ℕ → Error
  num_error : NumFault → List ℕ → Error
  wrapped : List ℕ → Error → Error

pub data Result {ℓ} (A : Type ℓ) : Type ℓ where
  ok : A → Result A
  err : Error → Result A

-- What follows a call whose error is returned at once.
infixl 5 ◌>>=◌ ◌>>◌
abbrev pub ◌>>=◌ {ℓ κ} : {X : Type ℓ} {Y : Type κ} → Result X → (X → Result Y) → Result Y
err bad >>= next = err bad
ok value >>= next = next value

abbrev pub ◌>>◌ {κ} : {Y : Type κ} → Result (Unit {0}) → Result Y → Result Y
first >> second = first >>= λ done. second

pub ok-injective {ℓ} : {A : Type ℓ} {a b : A} → ok a ≡ ok b → a ≡ b
ok-injective e = cc

module _ {ℓ κ} {X : Type ℓ} {Y : Type κ} where
  pub bind-eq-ok :
      (first : Result X) (next : X → Result Y) {y : Y}
      → (first >>= next) ≡ ok y
      → (x : X) × (first ≡ ok x) × (next x ≡ ok y)
  bind-eq-ok (err bad) next e = cc
  bind-eq-ok (ok x) next e = (x, refl, e)

  pub bind-ok :
      {first : Result X} (next : X → Result Y) {x : X} {y : Y}
      → first ≡ ok x
      → next x ≡ ok y
      → (first >>= next) ≡ ok y
  bind-ok {first = ok a} next e f = ap next (ok-injective e) ∙ f
  bind-ok {first = err bad} next e f = cc

-- The call returns a value.
abbrev pub Succeeds {ℓ} : {A : Type ℓ} → Result A → Type ℓ
Succeeds {A = A} r = (a : A) × (r ≡ ok a)

pub Succeeds-bind {ℓ κ} :
    {A : Type ℓ} {B : Type κ} {r : Result A} (f : A → Result B)
    → Succeeds r
    → ((a : A) → Succeeds (f a))
    → Succeeds (r >>= f)
Succeeds-bind f (a, e) g = let (b, e') = g a in (b, bind-ok f e e')

pub Result-cases {ℓ} :
    {A : Type ℓ} (r : Result A) → ((a : A) × (r ≡ ok a)) ⊎ ((e : Error) × (r ≡ err e))
Result-cases (ok a) = inl (a, refl)
Result-cases (err e) = inr (e, refl)

-- The items of the two lists belong together, one by one.
pub data Each {ℓ κ μ} {A : Type ℓ} {B : Type κ} (R : A → B → Type μ)
    : List A → List B → Type (ℓ ⊔ κ ⊔ μ) where
  nil : Each R [] []
  cons :
      {a : A} {b : B} {rest : List A} {others : List B}
      → R a b
      → Each R rest others
      → Each R (a ∷ rest) (b ∷ others)

pub Each-map {ℓ κ μ ν} :
    {A : Type ℓ} {B : Type κ} {R : A → B → Type μ} {S : A → B → Type ν}
    → ((a : A) (b : B) → R a b → S a b)
    → {l : List A} {m : List B} → Each R l m
    → Each S l m
Each-map f nil = nil
Each-map f (cons {a = a} {b = b} r more) = cons (f a b r) (Each-map f more)

-- `f` accepts each item of the first list, with the results of the second.
abbrev pub EachOk {ℓ κ} :
    {A : Type ℓ} {B : Type κ} → (A → Result B) → List A → List B → Type (ℓ ⊔ κ)
EachOk f = Each (λ a b. f a ≡ ok b)

module _ {ℓ κ} {A : Type ℓ} {B : Type κ} {f : A → Result B} where
  pub EachOk-nil : {l : List B} → EachOk f [] l → l ≡ []
  EachOk-nil nil = refl

  pub EachOk-cons :
      {a : A} {rest : List A} {l : List B}
      → EachOk f (a ∷ rest) l
      → (b : B) × (bs : List B) × (l ≡ b ∷ bs) × (f a ≡ ok b) × EachOk f rest bs
  EachOk-cons (cons {b = b} {others = results} e t) = (b, results, refl, e, t)

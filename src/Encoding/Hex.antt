-- ===== src/Encoding/Hex.antt =====
-- What is decoded from base64 is bytes, and their hexadecimal form has hexadecimal digits only.
use model_lib.Base.{
  ℕ, ◌/◌, ◌%◌, ◌≤◌, ◌<◌, Bool-cases, Option, none, some, [], ◌∷◌, ◌≡◌, ◌⊎◌, inl, inr, refl, subst,
  arith, ltb, ◌==◌, Bytes, All,
}
use model_lib.Encoding.{
  ◌>>=?◌, sextet, two_chars, three_chars, four_chars, decode_quanta, without_breaks, decode_base64,
  hex_digit, encode_hex,
}
use model_lib.Encoding.RoundTrip.{AllBytes}

abbrev pub IsHexDigit : ℕ → Type 0
IsHexDigit c = ((48 ≤ c) × (c ≤ 57)) ⊎ ((97 ≤ c) × (c ≤ 102))

hex_digit-IsHexDigit : (n : ℕ) → n < 16 → IsHexDigit (hex_digit n)
unfolding hex_digit
hex_digit-IsHexDigit n h = elim (Bool-cases (ltb n 10)) [
  | inl e ↦ rw e (inl (omega arith, ground arith))
  | inr e ↦ rw e (inr (ground arith, omega arith))
]

pub encode_hex-All : (bytes : Bytes) → AllBytes bytes → All IsHexDigit (encode_hex bytes)
unfolding encode_hex
encode_hex-All [] h = tt
encode_hex-All (b ∷ bytes) h = (
  hex_digit-IsHexDigit (b / 16) (omega (arith, h.0)),
  (hex_digit-IsHexDigit (b % 16) (omega arith), encode_hex-All bytes h.1),
)

bind-eq-some {ℓ κ} :
    {A : Type ℓ} {B : Type κ} (o : Option A) (f : A → Option B) {b : B}
    → (o >>=? f) ≡ some b
    → (a : A) × (o ≡ some a) × (f a ≡ some b)
bind-eq-some none f e = cc
bind-eq-some (some a) f e = (a, refl, e)

some-injective {ℓ} : {A : Type ℓ} {a b : A} → some a ≡ some b → a ≡ b
some-injective e = cc

sextet-lt : (c : ℕ) {x : ℕ} → sextet c ≡ some x → x < 64
unfolding sextet
sextet-lt c e = ground arith

two_chars-AllBytes : (a b : ℕ) {d : Bytes} → two_chars a b ≡ some d → AllBytes d
unfolding two_chars
two_chars-AllBytes a b e =
    let (x, ex, e1) = bind-eq-some (sextet a) _ e in
    let (y, ey, e2) = bind-eq-some (sextet b) _ e1 in
    subst AllBytes (some-injective e2) (omega (arith, sextet-lt a ex, sextet-lt b ey), tt)

three_chars-AllBytes : (a b c : ℕ) {d : Bytes} → three_chars a b c ≡ some d → AllBytes d
unfolding three_chars
three_chars-AllBytes a b c e =
    let (x, ex, e1) = bind-eq-some (sextet a) _ e in
    let (y, ey, e2) = bind-eq-some (sextet b) _ e1 in
    let (z, ez, e3) = bind-eq-some (sextet c) _ e2 in
    subst AllBytes (some-injective e3) (
      omega (arith, sextet-lt a ex, sextet-lt b ey),
      (omega (arith, sextet-lt b ey, sextet-lt c ez), tt),
    )

four_chars-AllBytes :
    (a b c w : ℕ) (rest : Option Bytes) {d : Bytes}
    → ((r : Bytes) → rest ≡ some r → AllBytes r)
    → four_chars a b c w rest ≡ some d
    → AllBytes d
unfolding four_chars
four_chars-AllBytes a b c w rest more e =
    let (x, ex, e1) = bind-eq-some (sextet a) _ e in
    let (y, ey, e2) = bind-eq-some (sextet b) _ e1 in
    let (z, ez, e3) = bind-eq-some (sextet c) _ e2 in
    let (v, ev, e4) = bind-eq-some (sextet w) _ e3 in
    let (r, er, e5) = bind-eq-some rest _ e4 in
    subst AllBytes (some-injective e5) (
      omega (arith, sextet-lt a ex, sextet-lt b ey),
      (
        omega (arith, sextet-lt b ey, sextet-lt c ez),
        (omega (arith, sextet-lt c ez, sextet-lt w ev), more r er),
      ),
    )

decode_quanta-AllBytes : (s : Bytes) {d : Bytes} → decode_quanta s ≡ some d → AllBytes d
unfolding decode_quanta
decode_quanta-AllBytes [] e = subst AllBytes (some-injective e) tt
decode_quanta-AllBytes (a ∷ []) e = cc
decode_quanta-AllBytes (a ∷ b ∷ []) e = cc
decode_quanta-AllBytes (a ∷ b ∷ c ∷ []) e = cc
decode_quanta-AllBytes (a ∷ b ∷ c ∷ w ∷ []) {d} e = elim (Bool-cases (w == b'=')) [
  | inl pad ↦ elim (Bool-cases (c == b'=')) [
    | inl two ↦ two_chars-AllBytes a b (ground (arith, e, pad, two))
    | inr one ↦ three_chars-AllBytes a b c (ground (arith, e, pad, one))
  ]
  | inr full ↦
      four_chars-AllBytes a b c w (some []) (λ r er. subst AllBytes (some-injective er) tt)
        (ground (arith, e, full))
]
decode_quanta-AllBytes (a ∷ b ∷ c ∷ w ∷ v ∷ rest) e =
    four_chars-AllBytes a b c w (decode_quanta (v ∷ rest))
      (λ r er. decode_quanta-AllBytes (v ∷ rest) er) e

pub decode_base64-AllBytes : (s : Bytes) {d : Bytes} → decode_base64 s ≡ some d → AllBytes d
unfolding decode_base64
decode_base64-AllBytes s e = decode_quanta-AllBytes (without_breaks s) e

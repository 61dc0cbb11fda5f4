-- ===== src/Encoding/RoundTrip.antt =====
-- The standard base64 encoding, which the program does not call, and the decoding behind it.
use model_lib.Base.{
  ℕ, ◌+◌, ◌-◌, ◌*◌, ◌/◌, ◌%◌, ◌<◌, false, some, [], ◌∷◌, ◌≡◌, refl, ap, ◌∙◌, arith, ltb, ◌==◌,
  if◌then◌else◌, Bytes, All, length, ◌||◌,
}
use model_lib.Encoding.{
  sextet, four_chars, decode_quanta, without_breaks, decode_base64, encode_hex,
}

abbrev pub AllBytes : Bytes → Type 0
AllBytes = All (λ b. b < 256)

-- The character of a value below 64 in the standard alphabet.
unfoldable pub base64_char : ℕ → ℕ
base64_char n =
    if ltb n 26
    then n + 65
    else if ltb n 52
    then n + 71
    else if ltb n 62
    then n - 4
    else if n == 62
    then b'+'
    else b'/'

-- The standard encoding, padded with `=`.
unfoldable pub encode_base64 : Bytes → Bytes
unfolding base64_char
encode_base64 [] = []
encode_base64 (a ∷ []) = base64_char (a / 4) ∷ base64_char (a % 4 * 16) ∷ b'=' ∷ b'=' ∷ []
encode_base64 (a ∷ b ∷ []) =
    base64_char (a / 4) ∷ base64_char (a % 4 * 16 + b / 16) ∷ base64_char (b % 16 * 4) ∷ b'=' ∷ []
encode_base64 (a ∷ b ∷ c ∷ rest) =
    base64_char (a / 4)
    ∷ base64_char (a % 4 * 16 + b / 16)
    ∷ base64_char (b % 16 * 4 + c / 64)
    ∷ base64_char (c % 64)
    ∷ encode_base64 rest

sextet-base64_char : (n : ℕ) → n < 64 → sextet (base64_char n) ≡ some n
unfolding sextet base64_char
sextet-base64_char n h = ground arith

-- No character of the alphabet is a line break or the padding.
base64_char_plain :
    (n : ℕ)
    → n < 64
    → ((base64_char n == b'\n' || base64_char n == b'\r') ≡ false)
      × ((base64_char n == b'=') ≡ false)
unfolding base64_char
base64_char_plain n h = ground arith

decode_quanta-cons :
    (a b c d : ℕ) (rest : Bytes)
    → (d == b'=') ≡ false
    → decode_quanta (a ∷ b ∷ c ∷ d ∷ rest) ≡ four_chars a b c d (decode_quanta rest)
unfolding decode_quanta
decode_quanta-cons a b c d [] e = rw e
decode_quanta-cons a b c d (x ∷ rest) e = refl

four_chars_lem :
    (x y z w : ℕ) (bytes : Bytes)
    → x < 64
    → y < 64
    → z < 64
    → w < 64
    → four_chars (base64_char x) (base64_char y) (base64_char z) (base64_char w) (some bytes)
      ≡ some ((x * 4 + y / 16) ∷ (y % 16 * 16 + z / 4) ∷ (z % 4 * 64 + w) ∷ bytes)
unfolding four_chars
four_chars_lem x y z w bytes hx hy hz hw = rw (
  sextet-base64_char x hx,
  sextet-base64_char y hy,
  sextet-base64_char z hz,
  sextet-base64_char w hw,
)

two_chars_lem :
    (a : ℕ)
    → a < 256
    → decode_quanta (base64_char (a / 4) ∷ base64_char (a % 4 * 16) ∷ b'=' ∷ b'=' ∷ [])
      ≡ some (a ∷ [])
unfolding decode_quanta
two_chars_lem a h =
    rw (sextet-base64_char (a / 4) (omega arith), sextet-base64_char (a % 4 * 16) (omega arith))
      (ground arith)

three_chars_lem :
    (a b : ℕ)
    → a < 256
    → b < 256
    → decode_quanta (
        base64_char (a / 4)
        ∷ base64_char (a % 4 * 16 + b / 16)
        ∷ base64_char (b % 16 * 4)
        ∷ b'='
        ∷ [])
      ≡ some (a ∷ b ∷ [])
unfolding decode_quanta
three_chars_lem a b h k = rw (base64_char_plain (b % 16 * 4) (omega arith)).1 (
    rw
      (
        sextet-base64_char (a / 4) (omega arith),
        sextet-base64_char (a % 4 * 16 + b / 16) (omega arith),
        sextet-base64_char (b % 16 * 4) (omega arith),
      )
      (ground arith))

decode_quanta-encode_base64 :
    (bytes : Bytes) → AllBytes bytes → decode_quanta (encode_base64 bytes) ≡ some bytes
unfolding encode_base64
decode_quanta-encode_base64 [] h = unfold decode_quanta in refl
decode_quanta-encode_base64 (a ∷ []) h = two_chars_lem a h.0
decode_quanta-encode_base64 (a ∷ b ∷ []) h = three_chars_lem a b h.0 h.1.0
decode_quanta-encode_base64 (a ∷ b ∷ c ∷ rest) h =
    decode_quanta-cons _ _ _ _ (encode_base64 rest) (base64_char_plain (c % 64) (omega arith)).1
    ∙ ap (four_chars _ _ _ _) (decode_quanta-encode_base64 rest h.1.1.1)
    ∙ four_chars_lem (a / 4) (a % 4 * 16 + b / 16) (b % 16 * 4 + c / 64) (c % 64) rest (omega arith)
        (omega arith) (omega arith) (omega arith)
    ∙ ground (arith, h.0, h.1.0, h.1.1.0)

plain_cons :
    (n : ℕ) (s : Bytes)
    → n < 64
    → without_breaks s ≡ s
    → without_breaks (base64_char n ∷ s) ≡ base64_char n ∷ s
unfolding without_breaks
plain_cons n s h e = rw ((base64_char_plain n h).0, e)

two_pads : without_breaks (b'=' ∷ b'=' ∷ []) ≡ b'=' ∷ b'=' ∷ []
unfolding without_breaks
two_pads = refl

one_pad : without_breaks (b'=' ∷ []) ≡ b'=' ∷ []
unfolding without_breaks
one_pad = refl

without_breaks-encode_base64 :
    (bytes : Bytes) → AllBytes bytes → without_breaks (encode_base64 bytes) ≡ encode_base64 bytes
unfolding encode_base64
without_breaks-encode_base64 [] h = unfold without_breaks in refl
without_breaks-encode_base64 (a ∷ []) h =
    plain_cons (a / 4) _ (omega (arith, h.0)) (plain_cons (a % 4 * 16) _ (omega arith) two_pads)
without_breaks-encode_base64 (a ∷ b ∷ []) h = plain_cons (a / 4) _ (omega (arith, h.0)) (
    plain_cons (a % 4 * 16 + b / 16) _ (omega (arith, h.1.0))
      (plain_cons (b % 16 * 4) _ (omega arith) one_pad))
without_breaks-encode_base64 (a ∷ b ∷ c ∷ rest) h = plain_cons (a / 4) _ (omega (arith, h.0)) (
    plain_cons (a % 4 * 16 + b / 16) _ (omega (arith, h.1.0)) (
      plain_cons (b % 16 * 4 + c / 64) _ (omega (arith, h.1.1.0))
        (plain_cons (c % 64) _ (omega arith) (without_breaks-encode_base64 rest h.1.1.1))))

-- Decoding the standard encoding of bytes gives the bytes back.
pub decode_base64-encode_base64 :
    (bytes : Bytes) → AllBytes bytes → decode_base64 (encode_base64 bytes) ≡ some bytes
unfolding decode_base64
decode_base64-encode_base64 bytes h =
    rw (without_breaks-encode_base64 bytes h) (decode_quanta-encode_base64 bytes h)

-- Two digits for a byte.
pub length-encode_hex : (bytes : Bytes) → length (encode_hex bytes) ≡ 2 * length bytes
unfolding encode_hex
length-encode_hex [] = refl
length-encode_hex (b ∷ bytes) = omega (arith, length-encode_hex bytes)

-- ===== src/Encoding.antt =====
-- Go's `encoding/base64` (StdEncoding.DecodeString) and `encoding/hex` (EncodeToString). Texts and
-- data are lists of bytes.
pub mod RoundTrip
pub mod Hex
use model_lib.Base.{
  ℕ, ◌+◌, ◌-◌, ◌*◌, ◌/◌, ◌%◌, Bool, true, false, ◌&&◌, ◌||◌, Option, none, some, [], ◌∷◌, ◌++◌, leb,
  ltb, ◌==◌, if◌then◌else◌, Bytes,
}

infixl 5 ◌>>=?◌
abbrev pub ◌>>=?◌ {ℓ κ} : {A : Type ℓ} {B : Type κ} → Option A → (A → Option B) → Option B
none >>=? f = none
some a >>=? f = f a

-- The value of a character of the standard alphabet.
unfoldable pub sextet : ℕ → Option ℕ
sextet c =
    if leb b'A' c && leb c b'Z'
    then some (c - 65)
    else if leb b'a' c && leb c b'z'
    then some (c - 71)
    else if leb b'0' c && leb c b'9'
    then some (c + 4)
    else if c == b'+'
    then some 62
    else if c == b'/'
    then some 63
    else none

-- The last quantum may be padded, with one `=` or two.
two_chars : ℕ → ℕ → Option Bytes
unfolding sextet
two_chars a b = sextet a >>=? λ x. sextet b >>=? λ y. some ((x * 4 + y / 16) ∷ [])

three_chars : ℕ → ℕ → ℕ → Option Bytes
unfolding sextet
three_chars a b c = sextet a >>=? λ x.
    sextet b >>=? λ y. sextet c >>=? λ z. some ((x * 4 + y / 16) ∷ (y % 16 * 16 + z / 4) ∷ [])

four_chars : ℕ → ℕ → ℕ → ℕ → Option Bytes → Option Bytes
unfolding sextet
four_chars a b c d rest = sextet a >>=? λ x. sextet b >>=? λ y. sextet c >>=? λ z.
    sextet d >>=? λ w.
    rest >>=? λ bytes. some ((x * 4 + y / 16) ∷ (y % 16 * 16 + z / 4) ∷ (z % 4 * 64 + w) ∷ bytes)

-- The quanta of a text with no line breaks.
decode_quanta : Bytes → Option Bytes
unfolding two_chars three_chars four_chars
decode_quanta [] = some []
decode_quanta (a ∷ b ∷ c ∷ d ∷ []) =
    if d == b'='
    then (if c == b'=' then two_chars a b else three_chars a b c)
    else four_chars a b c d (some [])
decode_quanta (a ∷ b ∷ c ∷ d ∷ e ∷ rest) = four_chars a b c d (decode_quanta (e ∷ rest))
decode_quanta _ = none

-- The decoder passes over line breaks.
without_breaks : Bytes → Bytes
without_breaks [] = []
without_breaks (c ∷ s) =
    let rest = without_breaks s in if c == b'\n' || c == b'\r' then rest else c ∷ rest

unfoldable pub decode_base64 : Bytes → Option Bytes
unfolding decode_quanta without_breaks
decode_base64 s = decode_quanta (without_breaks s)

unfoldable pub hex_digit : ℕ → ℕ
hex_digit n = if ltb n 10 then n + b'0' else n + 87

unfoldable pub encode_hex : Bytes → Bytes
unfolding hex_digit
encode_hex [] = []
encode_hex (b ∷ bytes) = hex_digit (b / 16) ∷ hex_digit (b % 16) ∷ encode_hex bytes

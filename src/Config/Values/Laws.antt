-- ===== src/Config/Values/Laws.antt =====
-- What the parsers of single values accept, and what they return.
use model_lib.Base.{
  Bool-cases, none, some, Option-cases, All, List, [], ◌∷◌, ◌++◌, ◌≡◌, ◌↔◌, refl, sym, ap, ◌∙◌,
  subst, inl, inr, arith, ◌==◌, if◌then◌else◌, Bytes, codes, length, message, Result, ok, err,
  ◌>>=◌, bind-eq-ok, ok-injective, EachOk, nil, cons, EachOk-nil, EachOk-cons,
}
use model_lib.Base.Int.{ℤ, pos, ◌≤ℤ◌}
use model_lib.Strings.{has_prefix, replace_first, trim_space, to_lower}
use model_lib.Encoding.{decode_base64, encode_hex}
use model_lib.Encoding.RoundTrip.{
  AllBytes, encode_base64, decode_base64-encode_base64, length-encode_hex,
}
use model_lib.Encoding.Hex.{IsHexDigit, encode_hex-All, decode_base64-AllBytes}
use model_lib.Ini.{Key, Section, KeyLaws}
use model_lib.Config.Types.{World}
use model_lib.Config.Values.{
  expand, parse_string, check_port, parse_port, check_key, encode_base64_to_hex, parse_parts,
}

-- How a text is written so that it is taken literally: a leading `$` is doubled.
abbrev pub escape : Bytes → Bytes
escape [] = []
escape (c ∷ s) = if c == b'$' then b'$' ∷ c ∷ s else c ∷ s

expand-escape : (w : World) (name value : Bytes) → expand w name (escape value) ≡ ok value
unfolding expand has_prefix replace_first
expand-escape w name [] = refl
expand-escape w name (c ∷ s) = elim (Bool-cases (c == b'$')) [
  | inl e ↦ ground arith
  | inr e ↦ ground arith
]

-- A value that was written with a leading `$` doubled is read back as it was, whatever the environment
-- holds, under a name in any case; this rests on what the package `ini` documents of `Key`.
pub parse_string-escape :
    (w : World) (s : Section) (name value : Bytes) (k : Key)
    → KeyLaws s
    → s.get_key name ≡ some k
    → k.string ≡ escape value
    → parse_string w s name ≡ ok value
unfolding parse_string
parse_string-escape w s name value k laws found e =
    rw (laws.found (to_lower name) k (laws.insensitive name ∙ found), parse_string, e)
      (expand-escape w name value)

-- A missing key is read as the empty text, with no error: `Key` is never nil, so that the code's test
-- for nil never passes.
pub parse_string-missing :
    (w : World) (s : Section) (name : Bytes)
    → KeyLaws s
    → s.get_key name ≡ none
    → parse_string w s name ≡ ok []
unfolding parse_string
parse_string-missing w s name laws missing =
    let (k, found, empty) = laws.missing (to_lower name) (laws.insensitive name ∙ missing) in
    rw (found, parse_string, empty) (unfold expand has_prefix in refl)

check_port_ok :
    (k : Key) (q p : ℤ)
    → k.int ≡ ok q
    → check_port q ≡ ok p
    → (k.int ≡ ok p) × (pos 0 ≤ℤ p) × (p ≤ℤ pos 65535)
unfolding check_port
check_port_ok k q p int e = ground arith

check_port_in_range : (p : ℤ) → pos 0 ≤ℤ p → p ≤ℤ pos 65535 → check_port p ≡ ok p
unfolding check_port
check_port_in_range p h k = ground arith

-- A port is read exactly if the key holds a number from 0 to 65535, and is that number.
pub parse_port_iff :
    (s : Section) (name : Bytes) (k : Key) (p : ℤ)
    → s.key name ≡ some k
    → (parse_port s name ≡ ok p) ↔ ((k.int ≡ ok p) × (pos 0 ≤ℤ p) × (p ≤ℤ pos 65535))
unfolding parse_port
parse_port_iff s name k p found =
    rw (found, parse_port)
      (
        (λ e. let (q, int, e') = bind-eq-ok k.int check_port e in check_port_ok k q p int e'),
        λ h. rw (h.0, ◌>>=◌) (check_port_in_range p h.1 h.2),
      )

-- A base64 text of bytes is accepted exactly if there are 32, and is returned in hexadecimal.
pub encode_base64_to_hex_lem :
    (bytes : Bytes)
    → AllBytes bytes
    → encode_base64_to_hex (encode_base64 bytes) ≡ (
        if length bytes == 32
        then ok (encode_hex bytes)
        else err (message (codes "key should be 32 bytes: " ++ encode_base64 bytes)))
unfolding encode_base64_to_hex check_key
encode_base64_to_hex_lem bytes h = rw (decode_base64-encode_base64 bytes h)

-- 64 hexadecimal digits
abbrev pub IsHexKey : Bytes → Type 0
IsHexKey h = (length h ≡ 64) × All IsHexDigit h

check_key-IsHexKey :
    (key d : Bytes) {h : Bytes} → AllBytes d → check_key key (some d) ≡ ok h → IsHexKey h
unfolding check_key
check_key-IsHexKey key d bytes e = elim (Bool-cases (length d == 32)) [
  | inl full ↦
      subst IsHexKey (ok-injective (ground (arith, e, full)))
        (ground (arith, length-encode_hex d), encode_hex-All d bytes)
  | inr short ↦ absurd (ground (arith, e, short))
]

-- A key that is accepted has 64 hexadecimal digits.
pub encode_base64_to_hex-IsHexKey :
    (key : Bytes) {h : Bytes} → encode_base64_to_hex key ≡ ok h → IsHexKey h
unfolding encode_base64_to_hex
encode_base64_to_hex-IsHexKey key {h} e = elim (Option-cases (decode_base64 key)) [
  | inl bad ↦ cc (sym e ∙ ap (check_key key) bad ∙ (unfold check_key in refl))
  | inr (d, decoded) ↦
      check_key-IsHexKey key d (decode_base64-AllBytes key decoded)
        (sym (ap (check_key key) decoded) ∙ e)
]

-- The parts that are not blank, trimmed.
abbrev pub entries : List Bytes → List Bytes
entries [] = []
entries (part ∷ parts) =
    if length (trim_space part) == 0 then entries parts else trim_space part ∷ entries parts

parse_parts-EachOk {ℓ} :
    {A : Type ℓ} (parse : Bytes → Result A) (parts : List Bytes) {items : List A}
    → parse_parts parse parts ≡ ok items
    → EachOk parse (entries parts) items
unfolding parse_parts
parse_parts-EachOk parse [] {items} e = subst (λ l. EachOk parse [] l) (ok-injective e) nil
parse_parts-EachOk parse (part ∷ parts) e = elim (Bool-cases (length (trim_space part) == 0)) [
  | inl blank ↦ rw blank (parse_parts-EachOk parse parts (rw blank at e))
  | inr more ↦ rw more (
      let (item, first, e') = bind-eq-ok (parse (trim_space part)) _ (rw more at e) in
      let (items', others, e'') = bind-eq-ok (parse_parts parse parts) _ e' in
      subst (λ l. EachOk parse (trim_space part ∷ entries parts) l) (ok-injective e'')
        (cons first (parse_parts-EachOk parse parts others)))
]

EachOk-parse_parts {ℓ} :
    {A : Type ℓ} (parse : Bytes → Result A) (parts : List Bytes) {items : List A}
    → EachOk parse (entries parts) items
    → parse_parts parse parts ≡ ok items
unfolding parse_parts
EachOk-parse_parts parse [] h = ap ok (sym (EachOk-nil h))
EachOk-parse_parts parse (part ∷ parts) h = elim (Bool-cases (length (trim_space part) == 0)) [
  | inl blank ↦ rw blank (EachOk-parse_parts parse parts (rw blank at h))
  | inr more ↦ rw more (
      let (item, items', same, first, others) = EachOk-cons (rw more at h) in
      rw (first, ◌>>=◌) (rw (EachOk-parse_parts parse parts others, same)))
]

-- A list of comma-separated parts is read exactly if each part that is not blank is read once it is
-- trimmed, and is the list of the results in their order.
pub parse_parts_iff {ℓ} :
    {A : Type ℓ} (parse : Bytes → Result A) (parts : List Bytes) (items : List A)
    → (parse_parts parse parts ≡ ok items) ↔ EachOk parse (entries parts) items
parse_parts_iff parse parts items = (parse_parts-EachOk parse parts, EachOk-parse_parts parse parts)

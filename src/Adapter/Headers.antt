-- ===== src/Adapter/Headers.antt =====
-- cmd/config-adapter/main.go: which lines withLocalSocks takes for headers.
use model_lib.Base.{
  true, false, [], ◌∷◌, ◌++◌, reverse, ◌≡◌, ◌↔◌, refl, sym, ap, ◌∙◌, arith, Bytes, codes,
}
use mathlib.Core.List.{reverse-reverse, reverse-append}
use model_lib.Strings.{is_space, has_prefix, has_suffix, trim_space, equal_fold}
use model_lib.Strings.Around.{Blank, trim_space-cut, trim_space-around}
use model_lib.Adapter.Letters.{
  in_brackets, Spells, socks5_letters, equal_fold-Spells, Spells-equal_fold,
}
use model_lib.Adapter.{is_header, is_socks}

-- A line in brackets, with white space around.
abbrev pub IsHeader : Bytes → Type 0
IsHeader line =
    (left body right : Bytes) × (line ≡ left ++ (in_brackets body ++ right))
    × Blank left
    × Blank right

abbrev pub HeadsSocks : Bytes → Type 0
HeadsSocks line =
    (left body right : Bytes) × (line ≡ left ++ (in_brackets body ++ right))
    × Blank left
    × Blank right
    × Spells body socks5_letters

prefix_lem : (t : Bytes) → has_prefix t (codes "[") ≡ true → (rest : Bytes) × (t ≡ b'[' ∷ rest)
unfolding has_prefix
prefix_lem [] e = cc
prefix_lem (c ∷ t) e = (t, ap (λ d. d ∷ t) (ground arith))

bracket_lem : (t : Bytes) → has_prefix t (codes "]") ≡ true → (rest : Bytes) × (t ≡ b']' ∷ rest)
unfolding has_prefix
bracket_lem [] e = cc
bracket_lem (c ∷ t) e = (t, ap (λ d. d ∷ t) (ground arith))

suffix_lem :
    (t : Bytes) → has_suffix t (codes "]") ≡ true → (front : Bytes) × (t ≡ front ++ b']' ∷ [])
unfolding has_suffix
suffix_lem t e =
    let (rest, same) = bracket_lem (reverse t) e in
    (reverse rest, sym (reverse-reverse t) ∙ ap reverse same ∙ reverse-append (b']' ∷ []) rest)

both_lem :
    (t rest front : Bytes)
    → t ≡ b'[' ∷ rest
    → t ≡ front ++ b']' ∷ []
    → (body : Bytes) × (t ≡ in_brackets body)
both_lem t rest [] e f = absurd (ground (arith, sym e ∙ f))
both_lem t rest (c ∷ body) e f =
    let first : c ≡ b'[' = ground (arith, sym f ∙ e) in
    (body, f ∙ ap (λ d. d ∷ (body ++ b']' ∷ [])) first)

suffix_back : (front : Bytes) → has_suffix (front ++ b']' ∷ []) (codes "]") ≡ true
unfolding has_suffix has_prefix
suffix_back front = ap (λ t. has_prefix t (codes "]")) (reverse-append front (b']' ∷ []))

open_bracket : is_space b'[' ≡ false
unfolding is_space
open_bracket = refl

close_bracket : is_space b']' ≡ false
unfolding is_space
close_bracket = refl

trimmed :
    (line left body right : Bytes)
    → line ≡ left ++ (in_brackets body ++ right)
    → Blank left
    → Blank right
    → trim_space line ≡ in_brackets body
trimmed line left body right e hl hr =
    ap trim_space e ∙ trim_space-around left right body b'[' b']' hl hr open_bracket close_bracket

untrimmed :
    (line body : Bytes)
    → trim_space line ≡ in_brackets body
    → (left right : Bytes) × (line ≡ left ++ (in_brackets body ++ right)) × Blank left × Blank right
untrimmed line body e =
    let (left, right, same, hl, hr) = trim_space-cut line in
    (left, right, same ∙ ap (λ t. left ++ (t ++ right)) e, hl, hr)

is_header-IsHeader : (line : Bytes) → is_header line ≡ true → IsHeader line
unfolding is_header
is_header-IsHeader line e =
    let t = trim_space line in
    let (rest, starts) = prefix_lem t (ground (arith, e)) in
    let (front, ends) = suffix_lem t (ground (arith, e)) in
    let (body, same) = both_lem t rest front starts ends in
    let (left, right, whole, hl, hr) = untrimmed line body same in
    (left, body, right, whole, hl, hr)

IsHeader-is_header : (line : Bytes) → IsHeader line → is_header line ≡ true
unfolding is_header has_prefix
IsHeader-is_header line (left, body, right, whole, hl, hr) =
    rw (trimmed line left body right whole hl hr) (suffix_back (b'[' ∷ body))

pub is_header_iff : (line : Bytes) → (is_header line ≡ true) ↔ IsHeader line
is_header_iff line = (is_header-IsHeader line, IsHeader-is_header line)

is_socks-HeadsSocks : (line : Bytes) → is_socks line ≡ true → HeadsSocks line
unfolding is_socks
is_socks-HeadsSocks line e =
    let (body, same, spelled) = equal_fold-Spells (trim_space line) e in
    let (left, right, whole, hl, hr) = untrimmed line body same in
    (left, body, right, whole, hl, hr, spelled)

HeadsSocks-is_socks : (line : Bytes) → HeadsSocks line → is_socks line ≡ true
unfolding is_socks
HeadsSocks-is_socks line (left, body, right, whole, hl, hr, spelled) =
    ap (λ t. equal_fold t (codes "[Socks5]")) (trimmed line left body right whole hl hr)
    ∙ Spells-equal_fold body spelled

pub is_socks_iff : (line : Bytes) → (is_socks line ≡ true) ↔ HeadsSocks line
is_socks_iff line = (is_socks-HeadsSocks line, HeadsSocks-is_socks line)

pub HeadsSocks-IsHeader : (line : Bytes) → HeadsSocks line → IsHeader line
HeadsSocks-IsHeader line (left, body, right, whole, hl, hr, spelled) =
    (left, body, right, whole, hl, hr)

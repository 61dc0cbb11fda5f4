-- ===== src/Adapter/Twice.antt =====
-- cmd/config-adapter/main.go: the [Socks5] sections of a prepared configuration, and a configuration
-- that is prepared twice.
use model_lib.Base.{
  Bool, true, false, Bool-cases, List, [], ◌∷◌, ◌++◌, append_assoc, ◌≡◌, refl, ap, ◌∙◌, inl, inr,
  arith, ◌==◌, if◌then◌else◌, Bytes, codes, All, All-append,
}
use model_lib.Strings.{
  split, join, replace_pair, replace_char, trim_space, has_prefix, has_suffix, equal_fold,
}
use model_lib.Strings.Split.{Lacks, All-onto_first}
use model_lib.Adapter.{is_header, is_socks, keep_lines, local_socks, unix_breaks, with_local_socks}
use model_lib.Adapter.Headers.{HeadsSocks}
use model_lib.Adapter.Output.{
  heads_socks, keep_lines-heads, or_blank, socks_lines, with_local_socks-lines,
}

blank_line : heads_socks [] ≡ false
unfolding is_header trim_space has_prefix
blank_line = refl

or_blank-heads :
    (lines : List Bytes)
    → All (λ l. heads_socks l ≡ false) lines
    → All (λ l. heads_socks l ≡ false) (or_blank lines)
or_blank-heads [] h = (blank_line, tt)
or_blank-heads (l ∷ lines) h = h

-- Lines that do not spell `[Socks5]`.
abbrev pub NoSocks : List Bytes → Type 0
NoSocks = All (λ line. HeadsSocks line → ⊥)

-- Lines that head no [Socks5] section are kept, and the loop goes on with the flag off.
keep_lines-append :
    (lines more : List Bytes)
    → All (λ l. heads_socks l ≡ false) lines
    → keep_lines false (lines ++ more) ≡ lines ++ keep_lines false more
unfolding keep_lines
keep_lines-append [] more h = refl
keep_lines-append (l ∷ lines) more h = ground (arith, keep_lines-append lines more h.1)

keep_socks_lines : keep_lines false socks_lines ≡ [] ∷ []
unfolding keep_lines is_header is_socks trim_space has_prefix has_suffix equal_fold
keep_socks_lines = refl

-- No carriage return is left.
abbrev NoCr : Bytes → Type 0
NoCr = Lacks b'\r'

NoCr-replace_char : (s : Bytes) → NoCr (replace_char s b'\r' (codes "\n"))
unfolding replace_char
NoCr-replace_char [] = tt
NoCr-replace_char (c ∷ s) = elim (Bool-cases (c == b'\r')) [
  | inl e ↦ rw e ((omega arith), NoCr-replace_char s)
  | inr e ↦ rw e ((ground arith), NoCr-replace_char s)
]

replace_char-NoCr : (s : Bytes) → NoCr s → replace_char s b'\r' (codes "\n") ≡ s
unfolding replace_char
replace_char-NoCr [] h = refl
replace_char-NoCr (c ∷ s) h = ground (arith, replace_char-NoCr s h.1)

replace_pair-NoCr : (s : Bytes) → NoCr s → replace_pair s b'\r' b'\n' (codes "\n") ≡ s
unfolding replace_pair
replace_pair-NoCr [] h = refl
replace_pair-NoCr (c ∷ []) h = refl
replace_pair-NoCr (c ∷ d ∷ s) h = ground (arith, replace_pair-NoCr (d ∷ s) h.1)

unix_breaks-NoCr : (s : Bytes) → NoCr s → unix_breaks s ≡ s
unfolding unix_breaks
unix_breaks-NoCr s h = rw (replace_pair-NoCr s h) (replace_char-NoCr s h)

NoCr-unix_breaks : (s : Bytes) → NoCr (unix_breaks s)
unfolding unix_breaks
NoCr-unix_breaks s = NoCr-replace_char (replace_pair s b'\r' b'\n' (codes "\n"))

NoCr-split : (s : Bytes) → NoCr s → All NoCr (split s b'\n')
unfolding split
NoCr-split [] h = (tt, tt)
NoCr-split (c ∷ s) h = elim (Bool-cases (c == b'\n')) [
  | inl e ↦ rw e (tt, NoCr-split s h.1)
  | inr e ↦ rw e (All-onto_first c b'\r' (split s b'\n') h.0 (NoCr-split s h.1))
]

NoCr-keep_lines :
    (skipping : Bool) (lines : List Bytes) → All NoCr lines → All NoCr (keep_lines skipping lines)
unfolding keep_lines
NoCr-keep_lines skipping [] h = tt
NoCr-keep_lines skipping (line ∷ lines) h =
    elim (Bool-cases (if is_header line then is_socks line else skipping)) [
      | inl e ↦ rw e (NoCr-keep_lines true lines h.1)
      | inr e ↦ rw e (h.0, NoCr-keep_lines false lines h.1)
    ]

NoCr-join : (lines : List Bytes) → All NoCr lines → NoCr (join lines b'\n')
unfolding join
NoCr-join [] h = tt
NoCr-join (l ∷ []) h = h.0
NoCr-join (l ∷ m ∷ lines) h =
    All-append _ l (b'\n' ∷ join (m ∷ lines) b'\n') h.0 ((omega arith), NoCr-join (m ∷ lines) h.1)

NoCr-with_local_socks : (text : Bytes) → NoCr (with_local_socks text)
unfolding with_local_socks
NoCr-with_local_socks text =
    All-append _ (join (keep_lines false (split (unix_breaks text) b'\n')) b'\n') local_socks
      (NoCr-join _
        (NoCr-keep_lines false _ (NoCr-split (unix_breaks text) (NoCr-unix_breaks text))))
      (omega arith)

join-blank :
    (lines : List Bytes) → join (or_blank lines ++ [] ∷ []) b'\n' ≡ join lines b'\n' ++ codes "\n"
unfolding join
join-blank [] = refl
join-blank (l ∷ []) = refl
join-blank (l ∷ m ∷ lines) = rw append_assoc (ap (λ s. l ++ b'\n' ∷ s) (join-blank (m ∷ lines)))

-- The lines that the second pass keeps.
keep_again :
    (text : Bytes)
    → keep_lines false (split (unix_breaks (with_local_socks text)) b'\n')
      ≡ or_blank (keep_lines false (split (unix_breaks text) b'\n')) ++ [] ∷ []
keep_again text =
    let kept = keep_lines false (split (unix_breaks text) b'\n') in
    let heads = keep_lines-heads false (split (unix_breaks text) b'\n') in
    ap (λ s. keep_lines false (split s b'\n'))
      (unix_breaks-NoCr (with_local_socks text) (NoCr-with_local_socks text))
    ∙ ap (keep_lines false) (with_local_socks-lines text)
    ∙ keep_lines-append (or_blank kept) socks_lines (or_blank-heads kept heads)
    ∙ ap (λ l. or_blank kept ++ l) keep_socks_lines

-- Preparing a prepared configuration adds an empty line in front of the [Socks5] section, and changes
-- nothing else.
pub with_local_socks-twice :
    (text : Bytes)
    → (body : Bytes) × (with_local_socks text ≡ body ++ local_socks)
      × (with_local_socks (with_local_socks text) ≡ (body ++ codes "\n") ++ local_socks)
unfolding with_local_socks
with_local_socks-twice text =
    let kept = keep_lines false (split (unix_breaks text) b'\n') in
    (
      join kept b'\n',
      refl,
      ap (λ l. join l b'\n' ++ local_socks) (keep_again text)
          ∙ ap (λ s. s ++ local_socks) (join-blank kept),
    )

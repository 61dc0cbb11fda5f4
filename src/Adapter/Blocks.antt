-- ===== src/Adapter/Blocks.antt =====
-- A configuration as a list of sections, and what `withLocalSocks` does to it.
use model_lib.Base.{
  Bool, true, false, List, [], ◌∷◌, ◌++◌, ◌≡◌, ◌↔◌, Bool-cases, inl, inr, sym, ◌∙◌, All, refl,
  arith, if◌then◌else◌, Bytes,
}
use model_lib.Adapter.{is_header, is_socks, keep_lines}
use model_lib.Adapter.Headers.{IsHeader, HeadsSocks, is_header_iff, is_socks_iff}

-- The lines from one header to the next, `socks` being whether the header is that of Socks5. The
-- lines in front of the first header are a block too.
pub record Block : Type 0 where
  pub socks : Bool
  pub lines : List Bytes

abbrev onto_block : Bytes → Block → Block
onto_block line b = record b { lines = line ∷ b.lines }

-- The lines that stand in the block at hand, and those of the later blocks.
abbrev cut : Bool → List Bytes → Block × List Block
cut socks [] = (record { socks = socks; lines = [] }, [])
cut socks (line ∷ lines) =
    let opened = cut (is_socks line) lines in
    let same = cut socks lines in
    if is_header line
    then (record { socks = socks; lines = [] }, onto_block line opened.0 ∷ opened.1)
    else (onto_block line same.0, same.1)

abbrev blocks : List Bytes → List Block
blocks lines = let parts = cut false lines in parts.0 ∷ parts.1

abbrev pub all_lines : List Block → List Bytes
all_lines [] = []
all_lines (b ∷ bs) = b.lines ++ all_lines bs

-- The blocks that are not headed by [Socks5].
abbrev pub without_socks : List Block → List Block
without_socks [] = []
without_socks (b ∷ bs) = if b.socks then without_socks bs else b ∷ without_socks bs

-- The blocks hold every line, in order.
cut-all_lines :
    (socks : Bool) (lines : List Bytes)
    → (cut socks lines).0.lines ++ all_lines (cut socks lines).1 ≡ lines
cut-all_lines socks [] = refl
cut-all_lines socks (line ∷ lines) =
    ground (arith, cut-all_lines (is_socks line) lines, cut-all_lines socks lines)

socks-cut : (socks : Bool) (lines : List Bytes) → (cut socks lines).0.socks ≡ socks
socks-cut socks [] = refl
socks-cut socks (line ∷ lines) = ground (arith, socks-cut socks lines)

keep-cut :
    (socks : Bool) (lines : List Bytes)
    → keep_lines socks lines ≡ all_lines (without_socks ((cut socks lines).0 ∷ (cut socks lines).1))
unfolding keep_lines
keep-cut true [] = refl
keep-cut false [] = refl
keep-cut socks (line ∷ lines) = ground (
  arith,
  keep-cut (is_socks line) lines,
  keep-cut socks lines,
  socks-cut (is_socks line) lines,
  socks-cut socks lines,
)

abbrev pub NoHeader : List Bytes → Type 0
NoHeader = All (λ line. IsHeader line → ⊥)

-- A header with the lines behind it, up to the next one.
pub record Headed (b : Block) : Type 0 where
  pub head : Bytes
  pub body : List Bytes
  pub whole : b.lines ≡ head ∷ body
  pub header : IsHeader head
  pub plain : NoHeader body
  pub socks : (b.socks ≡ true) ↔ HeadsSocks head

-- The lines in front of the first header, and the sections.
abbrev pub WellCut : List Block → Type 0
WellCut [] = ⊥
WellCut (b ∷ bs) = (b.socks ≡ false) × NoHeader b.lines × All Headed bs

not_header : (line : Bytes) → is_header line ≡ false → IsHeader line → ⊥
not_header line plain h = cc (sym ((is_header_iff line).1 h) ∙ plain)

cut-NoHeader : (socks : Bool) (lines : List Bytes) → NoHeader (cut socks lines).0.lines
cut-NoHeader socks [] = tt
cut-NoHeader socks (line ∷ lines) = elim (Bool-cases (is_header line)) [
  | inl header ↦ rw header tt
  | inr plain ↦ rw plain (not_header line plain, cut-NoHeader socks lines)
]

opened-Headed :
    (line : Bytes) (lines : List Bytes)
    → is_header line ≡ true
    → Headed (onto_block line (cut (is_socks line) lines).0)
opened-Headed line lines header = record {
  head = line;
  body = (cut (is_socks line) lines).0.lines;
  whole = refl;
  header = (is_header_iff line).0 header;
  plain = cut-NoHeader (is_socks line) lines;
  socks = (
    (λ e. (is_socks_iff line).0 (sym (socks-cut (is_socks line) lines) ∙ e)),
    λ h. socks-cut (is_socks line) lines ∙ (is_socks_iff line).1 h,
  );
}

cut-Headed : (socks : Bool) (lines : List Bytes) → All Headed (cut socks lines).1
cut-Headed socks [] = tt
cut-Headed socks (line ∷ lines) = elim (Bool-cases (is_header line)) [
  | inl header ↦ rw header (opened-Headed line lines header, cut-Headed (is_socks line) lines)
  | inr plain ↦ rw plain (cut-Headed socks lines)
]

-- A configuration is cut into the lines in front of its first header and its sections: each starts with
-- a header, a line that is in brackets but for white space around them, and has no other. The lines that
-- are kept are those of the parts whose header does not spell `Socks5`, in any case, in their order. A line
-- with a comment behind the bracket, which ini takes for a header, is none here.
pub keep_lines-blocks :
    (lines : List Bytes)
    → (bs : List Block) × (all_lines bs ≡ lines)
      × WellCut bs
      × (keep_lines false lines ≡ all_lines (without_socks bs))
keep_lines-blocks lines = (
  blocks lines,
  cut-all_lines false lines,
  (socks-cut false lines, cut-NoHeader false lines, cut-Headed false lines),
  keep-cut false lines,
)

-- ===== src/Adapter/Output.antt =====
-- The sections of the prepared configuration.
use model_lib.Base.{
  Bool, true, false, ◌&&◌, Bool-cases, List, [], ◌∷◌, ◌++◌, append_assoc, ◌≡◌, refl, ap, ◌∙◌, inl,
  inr, arith, if◌then◌else◌, Bytes, codes, All,
}
use model_lib.Strings.{split, join}
use model_lib.Strings.Split.{Lacks, split-append, split-All-Lacks}
use model_lib.Adapter.{is_header, is_socks, keep_lines, unix_breaks, with_local_socks}

-- A line that heads a [Socks5] section.
abbrev pub heads_socks : Bytes → Bool
heads_socks line = is_header line && is_socks line

-- No line that is kept heads a [Socks5] section.
pub keep_lines-heads :
    (skipping : Bool) (lines : List Bytes)
    → All (λ l. heads_socks l ≡ false) (keep_lines skipping lines)
unfolding keep_lines
keep_lines-heads skipping [] = tt
keep_lines-heads skipping (line ∷ lines) =
    elim (Bool-cases (if is_header line then is_socks line else skipping)) [
      | inl e ↦ rw e (keep_lines-heads true lines)
      | inr e ↦ rw e ((ground arith), keep_lines-heads false lines)
    ]

keep_lines-Lacks :
    (skipping : Bool) (lines : List Bytes)
    → All (Lacks b'\n') lines
    → All (Lacks b'\n') (keep_lines skipping lines)
unfolding keep_lines
keep_lines-Lacks skipping [] h = tt
keep_lines-Lacks skipping (line ∷ lines) h =
    elim (Bool-cases (if is_header line then is_socks line else skipping)) [
      | inl e ↦ rw e (keep_lines-Lacks true lines h.1)
      | inr e ↦ rw e (h.0, keep_lines-Lacks false lines h.1)
    ]

-- The lines of a text that ends in those lines.
abbrev pub or_blank : List Bytes → List Bytes
or_blank [] = [] ∷ []
or_blank (l ∷ lines) = l ∷ lines

split-join-append :
    (lines : List Bytes) (rest : Bytes)
    → All (Lacks b'\n') lines
    → split (join lines b'\n' ++ b'\n' ∷ rest) b'\n' ≡ or_blank lines ++ split rest b'\n'
unfolding join
split-join-append [] rest h = split-append [] rest b'\n' tt
split-join-append (l ∷ []) rest h = split-append l rest b'\n' h.0
split-join-append (l ∷ m ∷ lines) rest h =
    rw append_assoc
      (split-append l _ b'\n' h.0 ∙ ap (◌∷◌ l) (split-join-append (m ∷ lines) rest h.1))

-- The lines that are written behind those that are kept.
abbrev pub socks_lines : List Bytes
socks_lines = [] ∷ codes "[Socks5]" ∷ codes "BindAddress = 127.0.0.1:1080" ∷ [] ∷ []

socks_lines_lem : split (codes "\n[Socks5]\nBindAddress = 127.0.0.1:1080\n") b'\n' ≡ socks_lines
unfolding split
socks_lines_lem = refl

-- The lines of the prepared configuration.
pub with_local_socks-lines :
    (text : Bytes)
    → split (with_local_socks text) b'\n'
      ≡ or_blank (keep_lines false (split (unix_breaks text) b'\n')) ++ socks_lines
unfolding with_local_socks
with_local_socks-lines text =
    split-join-append (keep_lines false (split (unix_breaks text) b'\n'))
      (codes "\n[Socks5]\nBindAddress = 127.0.0.1:1080\n")
      (keep_lines-Lacks false _ (split-All-Lacks (unix_breaks text) b'\n'))
    ∙ ap (λ l. or_blank (keep_lines false (split (unix_breaks text) b'\n')) ++ l) socks_lines_lem

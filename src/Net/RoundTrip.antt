-- ===== src/Net/RoundTrip.antt =====
-- `SplitHostPort` behind `JoinHostPort`.
use mathlib.Core.List.{append_assoc, append-nil}
use model_lib.Base.{
  ℕ, true, false, Bool-cases, [], ◌∷◌, ◌++◌, ◌≡◌, refl, ap, ◌∙◌, inl, inr, arith, Bytes, ok, ◌||◌,
}
use model_lib.Strings.{split}
use model_lib.Strings.Split.{Lacks, split-Lacks, split-append}
use model_lib.Net.{
  has_char, check_brackets, split_plain, split_behind, split_bracket, split_at, split_host_port,
  join_host_port,
}

has_char-append : (s t : Bytes) (c : ℕ) → has_char (s ++ t) c ≡ (has_char s c || has_char t c)
unfolding has_char
has_char-append [] t c = refl
has_char-append (d ∷ s) t c = ground (arith, has_char-append s t c)

not_has_char-Lacks : (s : Bytes) (c : ℕ) → has_char s c ≡ false → Lacks c s
unfolding has_char
not_has_char-Lacks [] c e = tt
not_has_char-Lacks (d ∷ s) c e = ((ground arith), not_has_char-Lacks s c (ground arith))

split_bracket_lem :
    (addr front host rest : Bytes)
    → has_char host b']' ≡ false
    → split_bracket addr front (host ++ b']' ∷ rest) ≡ split_behind addr (front ++ host) rest
unfolding split_bracket has_char
split_bracket_lem addr front [] rest e = rw append-nil
split_bracket_lem addr front (c ∷ host) rest e =
    ground
      (arith, split_bracket_lem addr (front ++ c ∷ []) host rest, append_assoc front (c ∷ []) host)

-- Neither bracket stands in the text.
abbrev pub NoBrackets : Bytes → Type 0
NoBrackets s = (has_char s b'[' ≡ false) × (has_char s b']' ≡ false)

split_at-split_plain :
    (addr host port : Bytes)
    → has_char host b'[' ≡ false
    → split_at addr (host ++ b':' ∷ port) ≡ split_plain addr (split (host ++ b':' ∷ port) b':')
unfolding split_at has_char
split_at-split_plain addr [] port e = refl
split_at-split_plain addr (c ∷ host) port e = ground arith

check_brackets_plain :
    (addr host port : Bytes)
    → NoBrackets host
    → NoBrackets port
    → check_brackets addr (host ++ b':' ∷ port) (host ++ b':' ∷ port) (host, port) ≡ ok (host, port)
unfolding check_brackets
check_brackets_plain addr host port h p =
    rw (has_char-append, has_char-append, h.0, h.1) (unfold has_char in rw (p.0, p.1))

split_plain_lem :
    (host port : Bytes)
    → NoBrackets host
    → NoBrackets port
    → has_char host b':' ≡ false
    → has_char port b':' ≡ false
    → split_host_port (host ++ b':' ∷ port) ≡ ok (host, port)
unfolding split_host_port has_char
split_plain_lem host port h p n e =
    rw (has_char-append, n)
      (split_at-split_plain (host ++ b':' ∷ port) host port h.0
        ∙ ap (split_plain (host ++ b':' ∷ port)) parts
        ∙ check_brackets_plain (host ++ b':' ∷ port) host port h p)
  where
    parts : split (host ++ b':' ∷ port) b':' ≡ host ∷ port ∷ []
    parts =
        split-append host port b':' (not_has_char-Lacks host b':' n)
        ∙ ap (◌∷◌ host) (split-Lacks port b':' (not_has_char-Lacks port b':' e))

check_brackets_bracketed :
    (addr host port : Bytes)
    → NoBrackets host
    → NoBrackets port
    → check_brackets addr (host ++ b']' ∷ b':' ∷ port) (b':' ∷ port) (host, port) ≡ ok (host, port)
unfolding check_brackets
check_brackets_bracketed addr host port h p =
    rw (has_char-append, h.0) (unfold has_char in rw (p.0, p.1))

split_bracketed_lem :
    (host port : Bytes)
    → NoBrackets host
    → NoBrackets port
    → has_char host b':' ≡ true
    → has_char port b':' ≡ false
    → split_host_port (b'[' ∷ (host ++ b']' ∷ b':' ∷ port)) ≡ ok (host, port)
unfolding split_host_port split_behind
split_bracketed_lem host port h p n e =
    rw (has_char-append, n)
      (split_bracket_lem (b'[' ∷ (host ++ b']' ∷ b':' ∷ port)) [] host (b':' ∷ port) h.1
        ∙ rw e (check_brackets_bracketed (b'[' ∷ (host ++ b']' ∷ b':' ∷ port)) host port h p))

-- SplitHostPort returns the host and the port that JoinHostPort put together, for texts without
-- brackets and a port without a colon; the host may hold colons, as an IPv6 address does.
pub split_host_port-join_host_port :
    (host port : Bytes)
    → NoBrackets host
    → NoBrackets port
    → has_char port b':' ≡ false
    → split_host_port (join_host_port host port) ≡ ok (host, port)
unfolding join_host_port
split_host_port-join_host_port host port h p e = elim (Bool-cases (has_char host b':')) [
  | inl n ↦ rw n (split_bracketed_lem host port h p n e)
  | inr n ↦ rw n (split_plain_lem host port h p n e)
]

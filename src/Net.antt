-- ===== src/Net.antt =====
-- Go's `net.SplitHostPort` and `net.JoinHostPort`.
pub mod RoundTrip
pub mod OneLine
use model_lib.Base.{
  ℕ, Bool, true, false, List, [], ◌∷◌, ◌++◌, ◌==◌, if◌then◌else◌, Bytes, codes, ◌||◌, Result, ok,
  err, message,
}
use model_lib.Strings.{split}

unfoldable pub has_char : Bytes → ℕ → Bool
has_char [] c = false
has_char (d ∷ s) c = d == c || has_char s c

-- The error of net for an address.
abbrev pub addr_error {ℓ} : {A : Type ℓ} → Bytes → Bytes → Result A
addr_error addr why = err (message (codes "address " ++ addr ++ codes ": " ++ why))

abbrev pub missing_port : Bytes
missing_port = codes "missing port in address"

abbrev pub too_many_colons : Bytes
too_many_colons = codes "too many colons in address"

-- The last two tests: no bracket where none can stand.
check_brackets : Bytes → Bytes → Bytes → Bytes × Bytes → Result (Bytes × Bytes)
unfolding has_char
check_brackets addr open_part close_part parts =
    if has_char open_part b'['
    then addr_error addr (codes "unexpected '[' in address")
    else if has_char close_part b']'
    then addr_error addr (codes "unexpected ']' in address")
    else ok parts

-- A text with no bracket in front, at its colons.
split_plain : Bytes → List Bytes → Result (Bytes × Bytes)
unfolding check_brackets
split_plain addr (host ∷ port ∷ []) = check_brackets addr addr addr (host, port)
split_plain addr (host ∷ part ∷ more ∷ parts) = addr_error addr too_many_colons
split_plain addr _ = addr_error addr missing_port

-- What stands behind the first `]` of an address that starts with `[`.
split_behind : Bytes → Bytes → Bytes → Result (Bytes × Bytes)
unfolding check_brackets
split_behind addr host [] = addr_error addr missing_port
split_behind addr host (c ∷ port) =
    if c == b':'
    then (if has_char port b':'
        then addr_error addr too_many_colons
        else check_brackets addr (host ++ b']' ∷ c ∷ port) (c ∷ port) (host, port))
    else addr_error addr missing_port

-- The text up to the first `]`, in front of `host`.
split_bracket : Bytes → Bytes → Bytes → Result (Bytes × Bytes)
unfolding split_behind
split_bracket addr host [] = addr_error addr (codes "missing ']' in address")
split_bracket addr host (c ∷ s) =
    let more = split_bracket addr (host ++ c ∷ []) s in
    if c == b']' then split_behind addr host s else more

split_at : Bytes → Bytes → Result (Bytes × Bytes)
unfolding split_plain split_bracket
split_at addr [] = addr_error addr missing_port
split_at addr (c ∷ s) =
    if c == b'[' then split_bracket addr [] s else split_plain addr (split (c ∷ s) b':')

unfoldable pub split_host_port : Bytes → Result (Bytes × Bytes)
unfolding split_at
split_host_port addr =
    if has_char addr b':' then split_at addr addr else addr_error addr missing_port

unfoldable pub join_host_port : Bytes → Bytes → Bytes
unfolding has_char
join_host_port host port =
    if has_char host b':' then b'[' ∷ (host ++ b']' ∷ b':' ∷ port) else host ++ b':' ∷ port

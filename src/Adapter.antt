-- ===== src/Adapter.antt =====
-- cmd/config-adapter/main.go: `withLocalSocks`, which replaces the [Socks5] sections of a
-- configuration by one of its own. `adapt` is in the module Disk.
pub mod Letters
pub mod Headers
pub mod Blocks
pub mod Output
pub mod Twice
pub mod Disk
pub mod Command
mod Tests
use model_lib.Base.{ℕ, Bool, true, false, ◌&&◌, List, [], ◌∷◌, ◌++◌, if◌then◌else◌, Bytes, codes}
use model_lib.Strings.{
  has_prefix, has_suffix, trim_space, equal_fold, replace_pair, replace_char, split, join,
}

-- A line in brackets is the header of a section.
unfoldable pub is_header : Bytes → Bool
is_header line =
    let trimmed = trim_space line in
    has_prefix trimmed (codes "[") && has_suffix trimmed (codes "]")

unfoldable pub is_socks : Bytes → Bool
is_socks line = equal_fold (trim_space line) (codes "[Socks5]")

-- The loop over the lines; the flag is `skippingSocks`. It changes at a header, and a line is kept if
-- it is off then.
unfoldable pub keep_lines : Bool → List Bytes → List Bytes
keep_lines skipping [] = []
keep_lines skipping (line ∷ lines) =
    let now = if is_header line then is_socks line else skipping in
    let rest = keep_lines now lines in if now then rest else line ∷ rest

-- What is written behind the lines that are kept.
abbrev pub local_socks : Bytes
local_socks = codes "\n\n[Socks5]\nBindAddress = 127.0.0.1:1080\n"

-- The two calls of ReplaceAll: every line break becomes a line feed.
unfoldable pub unix_breaks : Bytes → Bytes
unix_breaks text = replace_char (replace_pair text b'\r' b'\n' (codes "\n")) b'\r' (codes "\n")

unfoldable pub with_local_socks : Bytes → Bytes
unfolding keep_lines unix_breaks
with_local_socks text =
    join (keep_lines false (split (unix_breaks text) b'\n')) b'\n' ++ local_socks

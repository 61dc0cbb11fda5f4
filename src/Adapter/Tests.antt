-- ===== src/Adapter/Tests.antt =====
-- Runs of cmd/config-adapter/main.go on a small configuration.
use model_lib.Base.{List, [], ◌∷◌, ◌++◌, false, ◌≡◌, refl, Bytes, codes}
use model_lib.Strings.{
  split, join, replace_char, replace_pair, has_prefix, trim_space, has_suffix, equal_fold,
}
use model_lib.Adapter.{is_header, is_socks, keep_lines, local_socks, with_local_socks}
use model_lib.Adapter.Blocks.{Block, WellCut, all_lines, without_socks, keep_lines-blocks}
use model_lib.Adapter.Twice.{with_local_socks-twice}

abbrev lines : List Bytes
lines =
    codes "[Interface]"
    ∷ codes "Jc = 4"
    ∷ codes " [SOCKS5] "
    ∷ codes "BindAddress = 0.0.0.0:1"
    ∷ codes "[Peer]"
    ∷ []

abbrev text : Bytes
text = codes "[Interface]\r\nJc = 4\r\n[socks5]\r\nBindAddress = 0.0.0.0:1\r\n"

with_local_socks-run :
    with_local_socks text ≡ codes "[Interface]\nJc = 4\n\n[Socks5]\nBindAddress = 127.0.0.1:1080\n"
unfolding with_local_socks join split replace_char replace_pair is_header has_prefix trim_space
    has_suffix is_socks equal_fold
with_local_socks-run = refl

with_local_socks-twice_example :
    (body : Bytes) × (with_local_socks text ≡ body ++ local_socks)
    × (with_local_socks (with_local_socks text) ≡ (body ++ codes "\n") ++ local_socks)
with_local_socks-twice_example = with_local_socks-twice text

keep_lines-blocks_example :
    (bs : List Block) × (all_lines bs ≡ lines)
    × WellCut bs
    × (keep_lines false lines ≡ all_lines (without_socks bs))
keep_lines-blocks_example = keep_lines-blocks lines

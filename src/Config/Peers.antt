-- ===== src/Config/Peers.antt =====
-- config.go: `ParsePeers`.
pub mod Laws
use model_lib.Base.{
  Option, none, some, List, [], ◌∷◌, ◌++◌, Bytes, codes, message, Result, ok, err, ◌>>=◌,
}
use model_lib.Base.Int.{pos}
use model_lib.Strings.{to_lower}
use model_lib.Ini.{Key, Section}
use model_lib.Ini
use model_lib.Config.Types.{World, PeerConfig}
use model_lib.Config.Values.{
  parse_base64_key_to_hex, encode_base64_to_hex, resolve_ipp_and_port, parse_allowed_ips,
}
use model_lib.Config.Interface.{optional_int, value_or}

-- 64 zeros
abbrev pub no_pre_shared_key : Bytes
no_pre_shared_key = codes "0000000000000000000000000000000000000000000000000000000000000000"

unfoldable pub parse_pre_shared_key : Option Key → Result Bytes
parse_pre_shared_key none = ok no_pre_shared_key
parse_pre_shared_key (some key) = encode_base64_to_hex key.string

unfoldable pub parse_endpoint : World → Option Key → Result (Option Bytes)
parse_endpoint w none = ok none
parse_endpoint w (some key) = do
  decoded ← resolve_ipp_and_port w (to_lower key.string)
  ok (some decoded)

unfoldable pub parse_peer : World → Section → Result PeerConfig
parse_peer w section = do
  public_key ← parse_base64_key_to_hex w section (codes "PublicKey")
  pre_shared_key ← parse_pre_shared_key (section.get_key (codes "PreSharedKey"))
  endpoint ← parse_endpoint w (section.get_key (codes "Endpoint"))
  keep_alive ← optional_int (section.get_key (codes "PersistentKeepalive"))
  allowed_ips ← parse_allowed_ips w section
  ok (record {
    public_key = public_key;
    pre_shared_key = pre_shared_key;
    endpoint = endpoint;
    keep_alive = value_or keep_alive (pos 0);
    allowed_ips = allowed_ips;
  })

-- The loop over the sections, which appends to `*peers`.
unfoldable pub append_peers : World → List Section → List PeerConfig → Result (List PeerConfig)
append_peers w [] peers = ok peers
append_peers w (section ∷ sections) peers =
    parse_peer w section >>= λ peer. append_peers w sections (peers ++ peer ∷ [])

abbrev pub one_peer : Bytes
one_peer = codes "at least one [Peer] is expected"

unfoldable pub with_sections :
    World → Option (List Section) → List PeerConfig → Result (List PeerConfig)
unfolding append_peers
with_sections w (some (section ∷ sections)) peers = append_peers w (section ∷ sections) peers
with_sections w _ peers = err (message one_peer)

unfoldable pub parse_peers : World → Ini.File → List PeerConfig → Result (List PeerConfig)
unfolding with_sections
parse_peers w cfg peers = with_sections w (cfg.sections_by_name (codes "Peer")) peers

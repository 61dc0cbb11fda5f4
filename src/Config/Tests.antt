-- ===== src/Config/Tests.antt =====
-- The theorems on config.go at a concrete configuration file.
use model_lib.Base.{some, List, [], ◌∷◌, ◌++◌, ◌≡◌, ◌≢◌, refl, codes, ok, equal}
use model_lib.Strings.{to_lower}
use model_lib.Ini.{Section}
use model_lib.Ini.Sample.{key_of, section_of-KeyLaws, find_key}
use model_lib.Config.Types.{PeerConfig}
use model_lib.Config.Values.{parse_string}
use model_lib.Config.Values.Laws.{parse_string-escape}
use model_lib.Config.Interface.Laws.{InterfaceOf, parse_interface_iff}
use model_lib.Config.Peers.Laws.{PeersOf, parse_peers_iff}
use model_lib.Config.File.{new_device}
use model_lib.Config.File.Laws.{ConfigurationOf}
use model_lib.Config.File.Accepted.{parse_config_iff}
use model_lib.Config.Sample.{
  socks_entries, socks, file, world, device, parsed_peer, parse_interface-file, parse_peers-file,
  configuration, parse_config-file,
}

parse_interface_example :
    (s : Section) × (file.sections_by_name (codes "Interface") ≡ some (s ∷ []))
    × InterfaceOf world s new_device device
parse_interface_example = (parse_interface_iff world file new_device device).0 parse_interface-file

parse_peers_example :
    (sections : List Section) × (new : List PeerConfig) × (file.sections_by_name (codes "Peer")
      ≡ some sections)
    × (sections ≢ [])
    × (parsed_peer ∷ [] ≡ [] ++ new)
    × PeersOf world sections new
parse_peers_example = (parse_peers_iff world file [] (parsed_peer ∷ [])).0 parse_peers-file

parse_config_example : ConfigurationOf world (codes "a.conf") configuration
parse_config_example =
    (parse_config_iff world (codes "a.conf") configuration).0 (parse_config-file (codes "a.conf"))

parse_string-escape_example : parse_string world socks (codes "Password") ≡ ok (codes "$secret")
unfolding find_key to_lower equal key_of
parse_string-escape_example =
    parse_string-escape world socks (codes "Password") (codes "$secret") (key_of (codes "$$secret"))
      (section_of-KeyLaws socks_entries) refl refl

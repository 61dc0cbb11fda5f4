-- ===== src/Config/Sample.antt =====
-- A configuration file, and what config.go makes of it.
use model_lib.Base.{
  true, false, none, List, [], ◌∷◌, ◌≡◌, refl, Bytes, codes, if◌then◌else◌, message, ok, err, equal,
}
use model_lib.Base.Int.{pos}
use model_lib.Strings.{
  has_prefix, contains, replace_first, trim_space, trim_left, split, to_lower, is_space,
}
use model_lib.Encoding.{decode_base64, encode_hex}
use model_lib.Ini
use model_lib.Ini.{Key, Section}
use model_lib.Ini.Sample.{
  key_of, section_of, file_of, find_key, key_or_empty, find_sections, first_section,
  section_or_empty,
}
use model_lib.Awg.Parse.{
  parse_asec_config, read_sizes, read_int, read_headers, read_interval, read_packets, read_text,
}
use model_lib.Awg.Validate.{validate_asec_config}
use model_lib.Config.Types.{
  Addr, Prefix, World, PeerConfig, DeviceConfig, tcp_server, socks5, Configuration,
}
use model_lib.Config.Values.{
  expand, parse_string, parse_port, encode_base64_to_hex, parse_base64_key_to_hex, parse_parts,
  parse_list, parse_net_ip, parse_cidr_net_ip, parse_allowed_ips,
}
use model_lib.Config.Interface.{
  parse_interface, parse_interface_section, optional_int, check_interval,
}
use model_lib.Config.Peers.{
  parse_pre_shared_key, parse_endpoint, parse_peer, append_peers, parse_peers, with_sections,
}
use model_lib.Config.Routines.{
  parse_tcp_server_tunnel_config, parse_socks5_config, append_routines, parse_routines_config,
}
use model_lib.Config.File.{new_device, wireguard_file, choose_resolve, parse_device, parse_config}

-- 32 bytes in base64 and in hexadecimal.
abbrev pub zero_bytes : Bytes
zero_bytes =
    0 ∷ 0 ∷ 0 ∷ 0 ∷ 0 ∷ 0 ∷ 0 ∷ 0 ∷ 0 ∷ 0 ∷ 0 ∷ 0 ∷ 0 ∷ 0 ∷ 0 ∷ 0 ∷ 0 ∷ 0 ∷ 0 ∷ 0 ∷ 0 ∷ 0 ∷ 0 ∷ 0
    ∷ 0 ∷ 0 ∷ 0 ∷ 0 ∷ 0 ∷ 0 ∷ 0 ∷ 0 ∷ []

abbrev pub zero_key : Bytes
zero_key = codes "AAAAAAAAAAAAAAAAAAAAAAAAAAAAAAAAAAAAAAAAAAA="

abbrev pub zero_hex : Bytes
zero_hex = codes "0000000000000000000000000000000000000000000000000000000000000000"

abbrev pub local_addr : Addr
local_addr = record { string = codes "10.0.0.2"; is4 = true; is6 = false }

abbrev pub all_ipv4 : Prefix
all_ipv4 = record { string = codes "0.0.0.0/0"; addr = local_addr }

abbrev pub interface : Section
interface = section_of (
    (codes "address", codes "10.0.0.2")
    ∷ (codes "privatekey", zero_key)
    ∷ (codes "mtu", codes "1280")
    ∷ [])

abbrev pub peer : Section
peer = section_of ((codes "publickey", zero_key) ∷ (codes "persistentkeepalive", codes "25") ∷ [])

abbrev pub socks_entries : List (Bytes × Bytes)
socks_entries =
    (codes "bindaddress", codes "127.0.0.1:1080") ∷ (codes "password", codes "$$secret") ∷ []

abbrev pub socks : Section
socks = section_of socks_entries

abbrev pub server : Section
server =
    section_of ((codes "listenport", codes "8080") ∷ (codes "target", codes "127.0.0.1:80") ∷ [])

abbrev pub file : Ini.File
file = file_of (
    (codes "Interface", interface ∷ [])
    ∷ (codes "Peer", peer ∷ [])
    ∷ (codes "Socks5", socks ∷ [])
    ∷ (codes "TCPServerTunnel", server ∷ [])
    ∷ [])

-- A process without environment variables, that knows one address and one prefix.
abbrev pub world : World
world = record {
  lookup_env = λ name. none;
  parse_addr = λ s.
      if equal s (codes "10.0.0.2")
      then ok local_addr
      else err (message (codes "unable to parse IP"));
  parse_prefix = λ s. ok all_ipv4;
  resolve_tcp_addr = λ s. ok (record { ip = []; port = pos 0 });
  resolve_ip_addr = λ s. ok (codes "192.0.2.1");
  load_sources = λ path. ok file;
}

abbrev pub device : DeviceConfig
device = record new_device {
  secret_key = zero_hex;
  endpoint = local_addr ∷ [];
  mtu = pos 1280;
  check_alive_interval = pos 5;
}

abbrev pub parsed_peer : PeerConfig
parsed_peer = record {
  public_key = zero_hex;
  pre_shared_key = zero_hex;
  endpoint = none;
  keep_alive = pos 25;
  allowed_ips = [];
}

pub parse_interface-file : parse_interface world file new_device ≡ ok device
unfolding parse_interface parse_interface_section optional_int check_interval parse_net_ip
    parse_cidr_net_ip parse_list parse_parts parse_base64_key_to_hex encode_base64_to_hex
    parse_string expand find_key key_or_empty find_sections key_of contains has_prefix split
    trim_space trim_left to_lower is_space decode_base64 encode_hex parse_asec_config read_sizes
    read_int read_headers read_interval read_packets read_text equal validate_asec_config
parse_interface-file = refl

pub parse_peers-file : parse_peers world file [] ≡ ok (parsed_peer ∷ [])
unfolding parse_peers with_sections append_peers parse_peer parse_pre_shared_key parse_endpoint
    optional_int parse_allowed_ips parse_list parse_parts parse_base64_key_to_hex
    encode_base64_to_hex parse_string expand find_key key_or_empty find_sections key_of contains
    has_prefix split trim_space trim_left to_lower is_space decode_base64 encode_hex equal
parse_peers-file = refl

abbrev pub configuration : Configuration
configuration = record {
  device = record device { peers = parsed_peer ∷ [] };
  routines =
      tcp_server (record { listen_port = pos 8080; target = codes "127.0.0.1:80" })
      ∷ socks5 (record {
        bind_address = codes "127.0.0.1:1080";
        username = [];
        password = codes "$secret";
      })
      ∷ [];
  resolve = record { resolve_strategy = codes "auto" };
}

pub parse_config-file : (path : Bytes) → parse_config world path ≡ ok configuration
unfolding parse_config parse_device expand find_key key_or_empty parse_list parse_parts parse_string
    find_sections first_section section_or_empty key_of contains has_prefix split to_lower
    wireguard_file choose_resolve parse_routines_config append_routines
    parse_tcp_server_tunnel_config parse_socks5_config parse_port replace_first equal
parse_config-file path = rw (parse_interface-file, parse_peers-file) refl

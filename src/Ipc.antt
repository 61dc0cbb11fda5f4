-- ===== src/Ipc.antt =====
-- wireguard.go: `CreateIPCRequest`, the request that configures a WireGuard device.
pub mod Settings
pub mod RoundTrip
pub mod Clean
pub mod Start
pub mod Parsed
mod Tests
use model_lib.Base.{
  ℕ, Bool, true, false, Option, none, some, List, [], ◌∷◌, ◌++◌, if◌then◌else◌, Bytes, codes,
}
use model_lib.Base.Int.{ℤ}
use model_lib.Strconv.{itoa}
use model_lib.Awg.Config.{ASecConfig}
use model_lib.Awg.Header.{format_magic_header_interval}
use model_lib.Config.Types.{Addr, Prefix, PeerConfig, DeviceConfig}

pub record DeviceSetting : Type 0 where
  pub ipc_request : Bytes
  pub dns : List Addr
  pub device_addr : List Addr
  pub mtu : ℤ

-- What one call of Fprintf writes: `key=%s\n`.
abbrev pub line : Bytes → Bytes → Bytes
line key value = key ++ b'=' ∷ value ++ b'\n' ∷ []

-- A line that is written if its option was given.
abbrev pub line_if : Bool → Bytes → Bytes → Bytes
line_if given key value = if given then line key value else []

abbrev pub line_of : Bytes → Option Bytes → Bytes
line_of key none = []
line_of key (some value) = line key value

unfoldable pub size_lines : ASecConfig → Bytes
size_lines c =
    line_if c.has_junk_packet_count (codes "jc") (itoa c.junk_packet_count)
    ++ line_if c.has_junk_packet_min_size (codes "jmin") (itoa c.junk_packet_min_size)
    ++ line_if c.has_junk_packet_max_size (codes "jmax") (itoa c.junk_packet_max_size)
    ++ line_if c.has_init_packet_junk_size (codes "s1") (itoa c.init_packet_junk_size)
    ++ line_if c.has_response_packet_junk_size (codes "s2") (itoa c.response_packet_junk_size)
    ++ line_if c.has_cookie_reply_packet_junk_size (codes "s3")
        (itoa c.cookie_reply_packet_junk_size)
    ++ line_if c.has_transport_packet_junk_size (codes "s4") (itoa c.transport_packet_junk_size)

unfoldable pub header_lines : ASecConfig → Bytes
header_lines c =
    line_if c.has_init_packet_magic_header (codes "h1")
      (format_magic_header_interval c.init_packet_magic_header c.init_packet_magic_header_max)
    ++ line_if c.has_response_packet_magic_header (codes "h2") (
        format_magic_header_interval c.response_packet_magic_header
          c.response_packet_magic_header_max)
    ++ line_if c.has_underload_packet_magic_header (codes "h3") (
        format_magic_header_interval c.underload_packet_magic_header
          c.underload_packet_magic_header_max)
    ++ line_if c.has_transport_packet_magic_header (codes "h4") (
        format_magic_header_interval c.transport_packet_magic_header
          c.transport_packet_magic_header_max)

unfoldable pub packet_lines : ASecConfig → Bytes
packet_lines c =
    line_of (codes "i1") c.i1
    ++ line_of (codes "i2") c.i2
    ++ line_of (codes "i3") c.i3
    ++ line_of (codes "i4") c.i4
    ++ line_of (codes "i5") c.i5

unfoldable pub asec_lines : Option ASecConfig → Bytes
asec_lines none = []
asec_lines (some c) = size_lines c ++ header_lines c ++ packet_lines c

-- The loop over the allowed addresses.
unfoldable pub allowed_lines : List Prefix → Bytes
allowed_lines [] = []
allowed_lines (ip ∷ ips) = line (codes "allowed_ip") ip.string ++ allowed_lines ips

unfoldable pub allowed_or_all : List Prefix → Bytes
allowed_or_all [] = codes "allowed_ip=0.0.0.0/0\nallowed_ip=::0/0\n"
allowed_or_all (ip ∷ ips) = allowed_lines (ip ∷ ips)

-- heredoc.Doc takes the first line break and the indentation away.
unfoldable pub peer_lines : PeerConfig → Bytes
peer_lines p =
    line (codes "public_key") p.public_key
    ++ line (codes "persistent_keepalive_interval") (itoa p.keep_alive)
    ++ line (codes "preshared_key") p.pre_shared_key
    ++ line_of (codes "endpoint") p.endpoint
    ++ allowed_or_all p.allowed_ips

-- The loop over the peers.
unfoldable pub peers_lines : List PeerConfig → Bytes
peers_lines [] = []
peers_lines (p ∷ peers) = peer_lines p ++ peers_lines peers

unfoldable pub port_line : Option ℤ → Bytes
port_line none = []
port_line (some port) = line (codes "listen_port") (itoa port)

-- There is no error.
unfoldable pub create_ipc_request : DeviceConfig → DeviceSetting
create_ipc_request conf = record {
  ipc_request =
      line (codes "private_key") conf.secret_key
      ++ port_line conf.listen_port
      ++ asec_lines conf.asec_config
      ++ peers_lines conf.peers;
  dns = conf.dns;
  device_addr = conf.endpoint;
  mtu = conf.mtu;
}

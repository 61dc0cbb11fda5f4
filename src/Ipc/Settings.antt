-- ===== src/Ipc/Settings.antt =====
-- What a device configuration says, as a list of settings, without the text format.
use model_lib.Base.{Bool, Option, none, some, List, [], ◌∷◌, ◌++◌, if◌then◌else◌, Bytes, codes, All}
use model_lib.Base.Int.{ℤ}
use model_lib.Strconv.{itoa}
use model_lib.Strings.Split.{Lacks}
use model_lib.Awg.Config.{ASecConfig}
use model_lib.Awg.Header.{format_magic_header_interval}
use model_lib.Config.Types.{Prefix, PeerConfig, DeviceConfig}

abbrev pub Setting : Type 0
Setting = Bytes × Bytes

abbrev pub settings_if : Bool → Bytes → Bytes → List Setting
settings_if given key value = if given then (key, value) ∷ [] else []

abbrev pub settings_of : Bytes → Option Bytes → List Setting
settings_of key none = []
settings_of key (some value) = (key, value) ∷ []

abbrev pub number_of : Bytes → Option ℤ → List Setting
number_of key none = []
number_of key (some n) = (key, itoa n) ∷ []

abbrev pub size_settings : ASecConfig → List Setting
size_settings c =
    settings_if c.has_junk_packet_count (codes "jc") (itoa c.junk_packet_count)
    ++ settings_if c.has_junk_packet_min_size (codes "jmin") (itoa c.junk_packet_min_size)
    ++ settings_if c.has_junk_packet_max_size (codes "jmax") (itoa c.junk_packet_max_size)
    ++ settings_if c.has_init_packet_junk_size (codes "s1") (itoa c.init_packet_junk_size)
    ++ settings_if c.has_response_packet_junk_size (codes "s2") (itoa c.response_packet_junk_size)
    ++ settings_if c.has_cookie_reply_packet_junk_size (codes "s3")
        (itoa c.cookie_reply_packet_junk_size)
    ++ settings_if c.has_transport_packet_junk_size (codes "s4") (itoa c.transport_packet_junk_size)

abbrev pub header_settings : ASecConfig → List Setting
header_settings c =
    settings_if c.has_init_packet_magic_header (codes "h1")
      (format_magic_header_interval c.init_packet_magic_header c.init_packet_magic_header_max)
    ++ settings_if c.has_response_packet_magic_header (codes "h2") (
        format_magic_header_interval c.response_packet_magic_header
          c.response_packet_magic_header_max)
    ++ settings_if c.has_underload_packet_magic_header (codes "h3") (
        format_magic_header_interval c.underload_packet_magic_header
          c.underload_packet_magic_header_max)
    ++ settings_if c.has_transport_packet_magic_header (codes "h4") (
        format_magic_header_interval c.transport_packet_magic_header
          c.transport_packet_magic_header_max)

abbrev pub packet_settings : ASecConfig → List Setting
packet_settings c =
    settings_of (codes "i1") c.i1
    ++ settings_of (codes "i2") c.i2
    ++ settings_of (codes "i3") c.i3
    ++ settings_of (codes "i4") c.i4
    ++ settings_of (codes "i5") c.i5

abbrev pub asec_settings : Option ASecConfig → List Setting
asec_settings none = []
asec_settings (some c) = size_settings c ++ header_settings c ++ packet_settings c

abbrev pub each_allowed : List Prefix → List Setting
each_allowed [] = []
each_allowed (ip ∷ ips) = (codes "allowed_ip", ip.string) ∷ each_allowed ips

-- A peer without allowed addresses may use all.
abbrev pub allowed_settings : List Prefix → List Setting
allowed_settings [] =
    (codes "allowed_ip", codes "0.0.0.0/0") ∷ (codes "allowed_ip", codes "::0/0") ∷ []
allowed_settings (ip ∷ ips) = each_allowed (ip ∷ ips)

abbrev pub peer_settings : PeerConfig → List Setting
peer_settings p =
    (codes "public_key", p.public_key)
      ∷ (codes "persistent_keepalive_interval", itoa p.keep_alive)
      ∷ (codes "preshared_key", p.pre_shared_key)
      ∷ settings_of (codes "endpoint") p.endpoint
    ++ allowed_settings p.allowed_ips

abbrev pub peers_settings : List PeerConfig → List Setting
peers_settings [] = []
peers_settings (p ∷ peers) = peer_settings p ++ peers_settings peers

abbrev pub device_settings : DeviceConfig → List Setting
device_settings conf =
    (codes "private_key", conf.secret_key) ∷ number_of (codes "listen_port") conf.listen_port
    ++ asec_settings conf.asec_config
    ++ peers_settings conf.peers

-- A text of one line.
abbrev pub OneLine : Bytes → Type 0
OneLine = Lacks b'\n'

abbrev pub OneLineIf : Option Bytes → Type 0
OneLineIf none = Unit {0}
OneLineIf (some value) = OneLine value

abbrev pub ASecOneLine : Option ASecConfig → Type 0
ASecOneLine none = Unit {0}
ASecOneLine (some c) =
    OneLineIf c.i1 × OneLineIf c.i2 × OneLineIf c.i3 × OneLineIf c.i4 × OneLineIf c.i5

pub record PeerOneLine (p : PeerConfig) : Type 0 where
  pub public_key : OneLine p.public_key
  pub pre_shared_key : OneLine p.pre_shared_key
  pub endpoint : OneLineIf p.endpoint
  pub allowed_ips : All (λ ip. OneLine ip.string) p.allowed_ips

-- No text of the configuration has a line break.
pub record IsOneLine (conf : DeviceConfig) : Type 0 where
  pub secret_key : OneLine conf.secret_key
  pub asec : ASecOneLine conf.asec_config
  pub peers : All PeerOneLine conf.peers

-- ===== src/Config/Interface.antt =====
-- config.go: `ParseInterface`. The pointer that it writes through is only kept by its caller if there
-- is no error, so the device is returned.
pub mod Laws
use model_lib.Base.{
  Option, none, some, List, [], ◌∷◌, Bytes, codes, message, Result, ok, err, ◌>>=◌,
}
use model_lib.Base.Int.{ℤ, pos}
use model_lib.Ini.{Key, Section}
use model_lib.Ini
use model_lib.Awg.Parse.{parse_asec_config}
use model_lib.Config.Types.{Addr, World, DeviceConfig}
use model_lib.Config.Values.{parse_net_ip, parse_cidr_net_ip, parse_base64_key_to_hex}

-- The number behind a key that may be missing.
unfoldable pub optional_int : Option Key → Result (Option ℤ)
optional_int none = ok none
optional_int (some key) = do value ← key.int; ok (some value)

abbrev pub one_interface : Bytes
one_interface = codes "one and only one [Interface] is expected"

abbrev pub interval_needs_check : Bytes
interval_needs_check = codes "CheckAliveInterval is only valid when CheckAlive is set"

-- `section.Int()` of CheckAliveInterval comes before the test of CheckAlive.
unfoldable pub check_interval : List Addr → Option ℤ → Result ℤ
check_interval addrs none = ok (pos 5)
check_interval [] (some value) = err (message interval_needs_check)
check_interval (a ∷ addrs) (some value) = ok value

abbrev pub value_or {ℓ} : {A : Type ℓ} → Option A → A → A
value_or none a = a
value_or (some b) a = b

-- A new value over an old one.
abbrev pub or_else {ℓ} : {A : Type ℓ} → Option A → Option A → Option A
or_else none a = a
or_else (some b) a = some b

unfoldable pub parse_interface_section : World → Section → DeviceConfig → Result DeviceConfig
parse_interface_section w section device = do
  address ← parse_cidr_net_ip w section (codes "Address")
  priv_key ← parse_base64_key_to_hex w section (codes "PrivateKey")
  dns ← parse_net_ip w section (codes "DNS")
  mtu ← optional_int (section.get_key (codes "MTU"))
  listen_port ← optional_int (section.get_key (codes "ListenPort"))
  check_alive ← parse_net_ip w section (codes "CheckAlive")
  given ← optional_int (section.get_key (codes "CheckAliveInterval"))
  interval ← check_interval check_alive given
  asec_config ← parse_asec_config section
  ok (record device {
    endpoint = address;
    secret_key = priv_key;
    dns = dns;
    mtu = value_or mtu device.mtu;
    listen_port = or_else listen_port device.listen_port;
    check_alive = check_alive;
    check_alive_interval = interval;
    asec_config = asec_config;
  })

unfoldable pub with_only_section :
    World → Option (List Section) → DeviceConfig → Result DeviceConfig
with_only_section w (some (section ∷ [])) device = parse_interface_section w section device
with_only_section w _ device = err (message one_interface)

unfoldable pub parse_interface : World → Ini.File → DeviceConfig → Result DeviceConfig
unfolding with_only_section
parse_interface w cfg device = with_only_section w (cfg.sections_by_name (codes "Interface")) device

-- ===== src/Config/Interface/Laws.antt =====
-- What an accepted [Interface] section makes of the device.
use model_lib.Base.{
  Option, none, some, List, [], ◌∷◌, ◌≡◌, ◌≢◌, ◌↔◌, refl, sym, ap, ◌∙◌, bind-ok, subst, arith,
  Bytes, codes, ok, bind-eq-ok, ok-injective,
}
use model_lib.Base.Int.{ℤ, pos}
use model_lib.Ini
use model_lib.Ini.{Key, Section}
use model_lib.Awg.Parse.{parse_asec_config}
use model_lib.Awg.Parse.Read.{ReadFrom, parse_asec_config-ReadFrom, parse_asec_config_iff}
use model_lib.Config.Types.{Addr, World, DeviceConfig}
use model_lib.Config.Values.{parse_string, parse_net_ip, parse_cidr_net_ip, parse_base64_key_to_hex}
use model_lib.Config.Values.Laws.{IsHexKey, encode_base64_to_hex-IsHexKey}
use model_lib.Config.Interface.{
  optional_int, check_interval, value_or, or_else, parse_interface_section, with_only_section,
  parse_interface,
}

-- `value` is the number behind the key, or `default` where there is no key.
abbrev pub IntOf : Option Key → ℤ → ℤ → Type 0
IntOf none default value = value ≡ default
IntOf (some k) default value = k.int ≡ ok value

-- The port, likewise.
abbrev pub PortOf : Option Key → Option ℤ → Option ℤ → Type 0
PortOf none default value = value ≡ default
PortOf (some k) default value = (n : ℤ) × (value ≡ some n) × (k.int ≡ ok n)

-- An interval is only given together with addresses, and is five seconds otherwise.
abbrev pub IntervalOf : Option Key → List Addr → ℤ → Type 0
IntervalOf none addrs value = value ≡ pos 5
IntervalOf (some k) addrs value = (k.int ≡ ok value) × (addrs ≢ [])

-- The device `d'` is `d` with what section `s` says.
pub record InterfaceOf (w : World) (s : Section) (d d' : DeviceConfig) : Type 0 where
  pub address : parse_cidr_net_ip w s (codes "Address") ≡ ok d'.endpoint
  pub key : parse_base64_key_to_hex w s (codes "PrivateKey") ≡ ok d'.secret_key
  pub key_digits : IsHexKey d'.secret_key
  pub dns : parse_net_ip w s (codes "DNS") ≡ ok d'.dns
  pub mtu : IntOf (s.get_key (codes "MTU")) d.mtu d'.mtu
  pub port : PortOf (s.get_key (codes "ListenPort")) d.listen_port d'.listen_port
  pub check_alive : parse_net_ip w s (codes "CheckAlive") ≡ ok d'.check_alive
  pub interval :
      IntervalOf (s.get_key (codes "CheckAliveInterval")) d'.check_alive d'.check_alive_interval
  pub asec : ReadFrom s d'.asec_config
  pub peers : d'.peers ≡ d.peers

pub optional_int-IntOf :
    (o : Option Key) (default : ℤ) {v : Option ℤ}
    → optional_int o ≡ ok v
    → IntOf o default (value_or v default)
unfolding optional_int
optional_int-IntOf none default e = ground arith
optional_int-IntOf (some k) default e = ground arith

optional_int-PortOf :
    (o : Option Key) (default : Option ℤ) {v : Option ℤ}
    → optional_int o ≡ ok v
    → PortOf o default (or_else v default)
unfolding optional_int
optional_int-PortOf none default e = ground arith
optional_int-PortOf (some k) default e =
    let (n, int, e') = bind-eq-ok k.int _ e in
    subst (λ v. PortOf (some k) default (or_else v default)) (ok-injective e') (n, refl, int)

interval_lem :
    (o : Option Key) (addrs : List Addr) {v : Option ℤ} {i : ℤ}
    → optional_int o ≡ ok v
    → check_interval addrs v ≡ ok i
    → IntervalOf o addrs i
unfolding optional_int check_interval
interval_lem none addrs e f = ground arith
interval_lem (some k) addrs e f = ground arith

key_lem :
    (w : World) (s : Section) {h : Bytes}
    → parse_base64_key_to_hex w s (codes "PrivateKey") ≡ ok h
    → IsHexKey h
unfolding parse_base64_key_to_hex
key_lem w s e =
    let (key, _, e') = bind-eq-ok (parse_string w s (codes "PrivateKey")) _ e in
    encode_base64_to_hex-IsHexKey key e'

parse_interface_section-InterfaceOf :
    (w : World) (s : Section) (d : DeviceConfig) {d' : DeviceConfig}
    → parse_interface_section w s d ≡ ok d'
    → InterfaceOf w s d d'
unfolding parse_interface_section
parse_interface_section-InterfaceOf w s d e0 =
    let (address, r1, e1) = bind-eq-ok (parse_cidr_net_ip w s (codes "Address")) _ e0 in
    let (key, r2, e2) = bind-eq-ok (parse_base64_key_to_hex w s (codes "PrivateKey")) _ e1 in
    let (dns, r3, e3) = bind-eq-ok (parse_net_ip w s (codes "DNS")) _ e2 in
    let (mtu, r4, e4) = bind-eq-ok (optional_int (s.get_key (codes "MTU"))) _ e3 in
    let (port, r5, e5) = bind-eq-ok (optional_int (s.get_key (codes "ListenPort"))) _ e4 in
    let (alive, r6, e6) = bind-eq-ok (parse_net_ip w s (codes "CheckAlive")) _ e5 in
    let (given, r7, e7) = bind-eq-ok (optional_int (s.get_key (codes "CheckAliveInterval"))) _ e6 in
    let (interval, r8, e8) = bind-eq-ok (check_interval alive given) _ e7 in
    let (asec, r9, e9) = bind-eq-ok (parse_asec_config s) _ e8 in
    subst (λ x. InterfaceOf w s d x) (ok-injective e9)
      (record {
        address = r1;
        key = r2;
        key_digits = key_lem w s r2;
        dns = r3;
        mtu = optional_int-IntOf (s.get_key (codes "MTU")) d.mtu r4;
        port = optional_int-PortOf (s.get_key (codes "ListenPort")) d.listen_port r5;
        check_alive = r6;
        interval = interval_lem (s.get_key (codes "CheckAliveInterval")) alive r7 r8;
        asec = parse_asec_config-ReadFrom s asec r9;
        peers = refl;
      })

pub parse_interface-InterfaceOf :
    (w : World) (cfg : Ini.File) (d : DeviceConfig) {d' : DeviceConfig}
    → parse_interface w cfg d ≡ ok d'
    → (s : Section) × (cfg.sections_by_name (codes "Interface") ≡ some (s ∷ []))
      × InterfaceOf w s d d'
unfolding parse_interface
parse_interface-InterfaceOf w cfg d {d'} e = only (cfg.sections_by_name (codes "Interface")) refl e
  where
    only :
        (o : Option (List Section))
        → cfg.sections_by_name (codes "Interface") ≡ o
        → with_only_section w o d ≡ ok d'
        → (s : Section) × (cfg.sections_by_name (codes "Interface") ≡ some (s ∷ []))
          × InterfaceOf w s d d'
    only none f e = cc
    only (some []) f e = cc
    only (some (s ∷ [])) f e = (s, f, parse_interface_section-InterfaceOf w s d e)
    only (some (s ∷ t ∷ more)) f e = cc

pub IntOf-optional_int :
    (o : Option Key) (default : ℤ) {n : ℤ}
    → IntOf o default n
    → (v : Option ℤ) × (optional_int o ≡ ok v) × (value_or v default ≡ n)
unfolding optional_int
IntOf-optional_int none default e = (none, refl, sym e)
IntOf-optional_int (some k) default {n} e = (some n, bind-ok _ e refl, refl)

PortOf-optional_int :
    (o : Option Key) (default : Option ℤ) {p : Option ℤ}
    → PortOf o default p
    → (v : Option ℤ) × (optional_int o ≡ ok v) × (or_else v default ≡ p)
unfolding optional_int
PortOf-optional_int none default e = (none, refl, sym e)
PortOf-optional_int (some k) default (n, same, int) = (some n, bind-ok _ int refl, sym same)

check_interval-given :
    (addrs : List Addr) (i : ℤ) → addrs ≢ [] → check_interval addrs (some i) ≡ ok i
unfolding check_interval
check_interval-given [] i given = absurd (given refl)
check_interval-given (a ∷ addrs) i given = refl

IntervalOf-check_interval :
    (o : Option Key) (addrs : List Addr) {i : ℤ}
    → IntervalOf o addrs i
    → (v : Option ℤ) × (optional_int o ≡ ok v) × (check_interval addrs v ≡ ok i)
unfolding optional_int check_interval
IntervalOf-check_interval none addrs e = (none, refl, ap ok (sym e))
IntervalOf-check_interval (some k) addrs {i} (int, given) =
    (some i, bind-ok _ int refl, check_interval-given addrs i given)

InterfaceOf-parse_interface_section :
    (w : World) (s : Section) (d d' : DeviceConfig)
    → InterfaceOf w s d d'
    → parse_interface_section w s d ≡ ok d'
unfolding parse_interface_section
InterfaceOf-parse_interface_section w s d d' of =
    let (mtu, r4, mtu_same) = IntOf-optional_int (s.get_key (codes "MTU")) d.mtu of.mtu in
    let (port, r5, port_same) =
      PortOf-optional_int (s.get_key (codes "ListenPort")) d.listen_port of.port in
    let (given, r7, r8) =
      IntervalOf-check_interval (s.get_key (codes "CheckAliveInterval")) d'.check_alive
        of.interval in
    let last : record d {
      endpoint = d'.endpoint;
      secret_key = d'.secret_key;
      dns = d'.dns;
      mtu = value_or mtu d.mtu;
      listen_port = or_else port d.listen_port;
      check_alive = d'.check_alive;
      check_alive_interval = d'.check_alive_interval;
      asec_config = d'.asec_config;
    }
        ≡ d' =
      λ i. record d' { mtu = mtu_same i; listen_port = port_same i; peers = sym of.peers i } in
    bind-ok _ of.address (
      bind-ok _ of.key (
        bind-ok _ of.dns (
          bind-ok _ r4 (
            bind-ok _ r5 (
              bind-ok _ of.check_alive (
                bind-ok _ r7 (
                  bind-ok _ r8 (
                    bind-ok _ ((parse_asec_config_iff s d'.asec_config).1 of.asec)
                      (ap ok last)))))))))

-- An interface is accepted exactly if it stands in one [Interface] section, the only one, and then the
-- device holds what it says: a private key of 64 hexadecimal digits, the lists of addresses, MTU and
-- port, or the values they had, a check interval only beside addresses to check and five seconds
-- otherwise, and a valid AmneziaWG configuration; the peers are left alone.
pub parse_interface_iff :
    (w : World) (cfg : Ini.File) (d d' : DeviceConfig)
    → (parse_interface w cfg d ≡ ok d') ↔ (
        (s : Section) × (cfg.sections_by_name (codes "Interface") ≡ some (s ∷ []))
        × InterfaceOf w s d d')
unfolding parse_interface
parse_interface_iff w cfg d d' = (
  parse_interface-InterfaceOf w cfg d,
  λ (s, only, of).
      ap (λ o. with_only_section w o d) only ∙ InterfaceOf-parse_interface_section w s d d' of,
)

-- ===== src/Config/Types.antt =====
-- config.go: the types of a configuration, and what its parser asks of the world.
use model_lib.Base.{ℕ, Bool, List, Option, Bytes, Result}
use model_lib.Base.Int.{ℤ}
use model_lib.Ini
use model_lib.Awg.Config.{ASecConfig}

-- What the program asks of a `netip.Addr`, a `netip.Prefix` and a `net.TCPAddr`.
pub record Addr : Type 0 where
  pub string : Bytes
  pub is4 : Bool
  pub is6 : Bool

pub record Prefix : Type 0 where
  pub string : Bytes
  pub addr : Addr

pub record TcpAddr : Type 0 where
  pub ip : Bytes
  pub port : ℤ

-- The process environment, the address parsers of `netip`, the resolvers of `net`, and the files as
-- the package `ini` loads them.
pub record World : Type 0 where
  pub lookup_env : Bytes → Option Bytes
  pub parse_addr : Bytes → Result Addr
  pub parse_prefix : Bytes → Result Prefix
  pub resolve_tcp_addr : Bytes → Result TcpAddr
  pub resolve_ip_addr : Bytes → Result Bytes
  pub load_sources : Bytes → Result Ini.File

pub record PeerConfig : Type 0 where
  pub public_key : Bytes
  pub pre_shared_key : Bytes
  pub endpoint : Option Bytes
  pub keep_alive : ℤ
  pub allowed_ips : List Prefix

pub record DeviceConfig : Type 0 where
  pub secret_key : Bytes
  pub endpoint : List Addr
  pub peers : List PeerConfig
  pub dns : List Addr
  pub mtu : ℤ
  pub listen_port : Option ℤ
  pub check_alive : List Addr
  pub check_alive_interval : ℤ
  pub asec_config : Option ASecConfig

pub record UdpProxyTunnelConfig : Type 0 where
  pub bind_address : Bytes
  pub target : Bytes
  pub inactivity_timeout : ℤ

pub record TcpClientTunnelConfig : Type 0 where
  pub bind_address : TcpAddr
  pub target : Bytes

-- The two files are given by their descriptors.
pub record StdioTunnelConfig : Type 0 where
  pub target : Bytes
  pub input : ℕ
  pub output : ℕ

pub record TcpServerTunnelConfig : Type 0 where
  pub listen_port : ℤ
  pub target : Bytes

pub record Socks5Config : Type 0 where
  pub bind_address : Bytes
  pub username : Bytes
  pub password : Bytes

pub record HttpConfig : Type 0 where
  pub bind_address : Bytes
  pub username : Bytes
  pub password : Bytes
  pub cert_file : Bytes
  pub key_file : Bytes

pub record ResolveConfig : Type 0 where
  pub resolve_strategy : Bytes

-- The types that implement `RoutineSpawner`.
pub data RoutineSpawner : Type 0 where
  tcp_client : TcpClientTunnelConfig → RoutineSpawner
  stdio : StdioTunnelConfig → RoutineSpawner
  tcp_server : TcpServerTunnelConfig → RoutineSpawner
  socks5 : Socks5Config → RoutineSpawner
  http : HttpConfig → RoutineSpawner
  udp_proxy : UdpProxyTunnelConfig → RoutineSpawner

pub record Configuration : Type 0 where
  pub device : DeviceConfig
  pub routines : List RoutineSpawner
  pub resolve : ResolveConfig

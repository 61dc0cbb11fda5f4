-- ===== src/Config/File.antt =====
-- config.go: `ParseConfig`.
pub mod Laws
pub mod Accepted
use model_lib.Base.{Option, none, some, List, [], Bytes, codes, Result, ok, err, ◌>>=◌}
use model_lib.Base.Int.{pos}
use model_lib.Ini.{Key, Section}
use model_lib.Ini
use model_lib.Config.Types.{World, DeviceConfig, RoutineSpawner, ResolveConfig, Configuration}
use model_lib.Config.Interface.{parse_interface}
use model_lib.Config.Peers.{parse_peers}
use model_lib.Config.Routines.{
  parse_tcp_client_tunnel_config, parse_stdio_tunnel_config, parse_tcp_server_tunnel_config,
  parse_socks5_config, parse_http_config, parse_resolve_config, parse_udp_proxy_tunnel_config,
  parse_routines_config,
}

-- `&DeviceConfig{MTU: 1420}`
abbrev pub new_device : DeviceConfig
new_device = record {
  secret_key = [];
  endpoint = [];
  peers = [];
  dns = [];
  mtu = pos 1420;
  listen_port = none;
  check_alive = [];
  check_alive_interval = pos 0;
  asec_config = none;
}

-- The file that holds the WireGuard sections: this one, or the one that WGConfig names.
unfoldable pub wireguard_file : World → Ini.File → Option Key → Result Ini.File
wireguard_file w cfg none = ok cfg
wireguard_file w cfg (some key) = w.load_sources key.string

unfoldable pub choose_resolve : World → Option Section → Result ResolveConfig
choose_resolve w none = ok (record { resolve_strategy = codes "auto" })
choose_resolve w (some section) = parse_resolve_config w section

unfoldable pub parse_device : World → Ini.File → Result DeviceConfig
parse_device w wg_cfg = do
  device ← parse_interface w wg_cfg new_device
  peers ← parse_peers w wg_cfg device.peers
  ok (record device { peers = peers })

unfoldable pub parse_config : World → Bytes → Result Configuration
unfolding parse_device
parse_config w path = do
  cfg ← w.load_sources path
  wg_cfg ← wireguard_file w cfg ((cfg.section []).get_key (codes "WGConfig"))
  device ← parse_device w wg_cfg
  r1 ← parse_routines_config [] cfg (codes "TCPClientTunnel") (parse_tcp_client_tunnel_config w)
  r2 ← parse_routines_config r1 cfg (codes "STDIOTunnel") (parse_stdio_tunnel_config w)
  r3 ← parse_routines_config r2 cfg (codes "TCPServerTunnel") (parse_tcp_server_tunnel_config w)
  r4 ← parse_routines_config r3 cfg (codes "Socks5") (parse_socks5_config w)
  r5 ← parse_routines_config r4 cfg (codes "http") (parse_http_config w)
  resolve ← choose_resolve w (cfg.get_section (codes "Resolve"))
  r6 ← parse_routines_config r5 cfg (codes "UDPProxyTunnel") (parse_udp_proxy_tunnel_config w)
  ok (record { device = device; routines = r6; resolve = resolve })

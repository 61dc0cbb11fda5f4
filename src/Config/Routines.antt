-- ===== src/Config/Routines.antt =====
-- config.go: the sections of the tunnels and proxies, and `parseRoutinesConfig`.
pub mod Laws
pub mod Sections
use model_lib.Base.{Option, none, some, List, [], ◌∷◌, ◌++◌, Bytes, codes, Result, ok, err, ◌>>=◌}
use model_lib.Base.Int.{pos}
use model_lib.Ini.{Section}
use model_lib.Ini
use model_lib.Config.Types.{
  World, RoutineSpawner, tcp_client, stdio, tcp_server, socks5, http, udp_proxy, ResolveConfig,
}
use model_lib.Config.Values.{parse_string, parse_port, parse_tcp_addr}
use model_lib.Config.Interface.{optional_int, value_or}

-- `value, _ := parseString(…)`
abbrev pub or_empty : Result Bytes → Bytes
or_empty (ok s) = s
or_empty (err e) = []

unfoldable pub parse_tcp_client_tunnel_config : World → Section → Result RoutineSpawner
parse_tcp_client_tunnel_config w section = do
  tcp_addr ← parse_tcp_addr w section (codes "BindAddress")
  target ← parse_string w section (codes "Target")
  ok (tcp_client (record { bind_address = tcp_addr; target = target }))

unfoldable pub parse_stdio_tunnel_config : World → Section → Result RoutineSpawner
parse_stdio_tunnel_config w section = do
  target ← parse_string w section (codes "Target")
  ok (stdio (record { target = target; input = 0; output = 1 }))

unfoldable pub parse_tcp_server_tunnel_config : World → Section → Result RoutineSpawner
parse_tcp_server_tunnel_config w section = do
  listen_port ← parse_port section (codes "ListenPort")
  target ← parse_string w section (codes "Target")
  ok (tcp_server (record { listen_port = listen_port; target = target }))

unfoldable pub parse_socks5_config : World → Section → Result RoutineSpawner
parse_socks5_config w section = do
  bind_address ← parse_string w section (codes "BindAddress")
  let username = or_empty (parse_string w section (codes "Username"))
  let password = or_empty (parse_string w section (codes "Password"))
  ok (socks5 (record { bind_address = bind_address; username = username; password = password }))

unfoldable pub parse_http_config : World → Section → Result RoutineSpawner
parse_http_config w section = do
  bind_address ← parse_string w section (codes "BindAddress")
  let username = or_empty (parse_string w section (codes "Username"))
  let password = or_empty (parse_string w section (codes "Password"))
  let cert_file = or_empty (parse_string w section (codes "CertFile"))
  let key_file = or_empty (parse_string w section (codes "KeyFile"))
  ok (
      http (record {
        bind_address = bind_address;
        username = username;
        password = password;
        cert_file = cert_file;
        key_file = key_file;
      }))

unfoldable pub parse_resolve_config : World → Section → Result ResolveConfig
parse_resolve_config w section =
    ok (record { resolve_strategy = or_empty (parse_string w section (codes "ResolveStrategy")) })

unfoldable pub parse_udp_proxy_tunnel_config : World → Section → Result RoutineSpawner
parse_udp_proxy_tunnel_config w section = do
  bind_address ← parse_string w section (codes "BindAddress")
  target ← parse_string w section (codes "Target")
  timeout ← optional_int (section.get_key (codes "InactivityTimeout"))
  ok (
      udp_proxy (record {
        bind_address = bind_address;
        target = target;
        inactivity_timeout = value_or timeout (pos 0);
      }))

-- The loop over the sections, which appends to `*routines`.
unfoldable pub append_routines :
    (Section → Result RoutineSpawner)
    → List Section
    → List RoutineSpawner
    → Result (List RoutineSpawner)
append_routines f [] routines = ok routines
append_routines f (section ∷ sections) routines =
    f section >>= λ config. append_routines f sections (routines ++ config ∷ [])

-- No section of the name is no error.
unfoldable pub parse_routines_config :
    List RoutineSpawner
    → Ini.File
    → Bytes
    → (Section → Result RoutineSpawner)
    → Result (List RoutineSpawner)
parse_routines_config routines cfg section_name f = elim (cfg.sections_by_name section_name) [
  | none ↦ ok routines
  | some sections ↦ append_routines f sections routines
]

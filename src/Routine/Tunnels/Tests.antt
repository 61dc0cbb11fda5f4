-- ===== src/Routine/Tunnels/Tests.antt =====
-- Runs of the TCP tunnels.
use model_lib.Base.{
  true, false, none, some, List, [], ◌∷◌, ◌≡◌, ◌⊎◌, codes, equal, Error, message, ok, err,
  if◌then◌else◌,
}
use model_lib.Config.Types.{Addr, TcpClientTunnelConfig, TcpServerTunnelConfig, StdioTunnelConfig}
use model_lib.Base.Int.{pos}
use model_lib.Routine.{AddressPort, Lookups, parse_address_port}
use model_lib.Routine.Resolver.{Shuffles}
use model_lib.Routine.Tunnels.{
  tunnel, local, Action, Attempt, Listener, fails, spawn_tcp_client, spawn_tcp_server, spawn_stdio,
}
use model_lib.Routine.Tunnels.Listen.{Serves, spawn_tcp-Serves}
use model_lib.Routine.Tunnels.Stdio.{StdioServed, spawn_stdio-StdioServed}

abbrev addr : Addr
addr = record { string = codes "10.0.0.2"; is4 = true; is6 = false }

abbrev lookups : Lookups
lookups = record {
  system_dns = true;
  lookup_host = λ name. if equal name (codes "host") then ok (codes "10.0.0.2" ∷ []) else ok [];
  lookup_context_host = λ name. ok [];
  shuffle = λ l. l;
  parse_addr = λ s. if equal s (codes "10.0.0.2") then ok addr else err (message (codes "bad"));
}

shuffles : Shuffles lookups.shuffle
shuffles = record { texts = λ s l. ((λ h. h), λ h. h) }

abbrev attempt : Attempt
attempt = record { lookups = lookups; stdout_error = none; dial_error = none }

abbrev refused : Attempt
refused = record attempt { dial_error = some (message (codes "refused")) }

abbrev listener : Listener
listener = record {
  listen_error = none;
  accepts = ok attempt ∷ ok refused ∷ err (message (codes "closed")) ∷ [];
}

abbrev client : TcpClientTunnelConfig
client = record {
  bind_address = record { ip = codes "127.0.0.1"; port = pos 8080 };
  target = codes "host:80";
}

abbrev server : TcpServerTunnelConfig
server = record { listen_port = pos 8081; target = codes "host:81" }

spawn_tcp-Serves_example :
    Serves tunnel (codes "host:80") listener (spawn_tcp_client client listener)
    × Serves local (codes "host:81") listener (spawn_tcp_server server listener)
spawn_tcp-Serves_example = spawn_tcp-Serves client server listener (shuffles, (shuffles, tt))

abbrev stdio : StdioTunnelConfig
stdio = record { target = codes "host:22"; input = 0; output = 1 }

spawn_stdio-StdioServed_example :
    ((raddr : AddressPort) × (acts : List Action) × (parse_address_port (codes "host:22")
        ≡ ok raddr)
      × (spawn_stdio stdio attempt ≡ record { goroutines = acts ∷ []; fatal = none })
      × StdioServed (codes "host:22") attempt acts)
    ⊎ ((e : Error) × (parse_address_port (codes "host:22") ≡ err e)
        × (spawn_stdio stdio attempt ≡ fails e))
spawn_stdio-StdioServed_example = spawn_stdio-StdioServed stdio attempt shuffles

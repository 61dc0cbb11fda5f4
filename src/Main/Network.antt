-- ===== src/Main/Network.antt =====
-- What the rules for the network allow.
use model_lib.Base.{ℕ, List, [], ◌∷◌, ◌≡◌, ◌⊎◌, Bytes, ok}
use model_lib.Config.Types.{RoutineSpawner, tcp_client, stdio, tcp_server, socks5, http, udp_proxy}
use model_lib.Main.{extract_port, Rule, bind_tcp, connect_tcp}

-- The rule is among the rules.
abbrev pub Among : Rule → List Rule → Type 0
Among rule [] = ⊥
Among rule (r ∷ rules) = (r ≡ rule) ⊎ Among rule rules

-- The port of the address may be bound, or connected to.
abbrev pub MayBind : List Rule → Bytes → Type 0
MayBind rules addr = (port : ℕ) × (extract_port addr ≡ ok port) × Among (bind_tcp port) rules

abbrev pub MayConnect : List Rule → Bytes → Type 0
MayConnect rules addr = (port : ℕ) × (extract_port addr ≡ ok port) × Among (connect_tcp port) rules

-- What a routine is granted; nothing is asked here for a TCP client tunnel.
abbrev pub Granted : List Rule → RoutineSpawner → Type 0
Granted rules (tcp_client c) = Unit {0}
Granted rules (stdio c) = Unit {0}
Granted rules (tcp_server c) = MayConnect rules c.target
Granted rules (socks5 c) = MayBind rules c.bind_address
Granted rules (http c) = MayBind rules c.bind_address
Granted rules (udp_proxy c) = Unit {0}

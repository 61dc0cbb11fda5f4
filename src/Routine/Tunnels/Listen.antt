-- ===== src/Routine/Tunnels/Listen.antt =====
-- routine.go: the loop over Accept of a TCP tunnel.
use model_lib.Base.{
  AcceptedAll, waiting, stopped, served, Option, none, some, Option-cases, List, [], ◌∷◌, ◌≡◌, ◌⊎◌,
  sym, inl, inr, Bytes, Error, Result, ok, err, Result-cases, subst,
}
use model_lib.Config.Types.{TcpClientTunnelConfig, TcpServerTunnelConfig}
use model_lib.Routine.{AddressPort, parse_address_port}
use model_lib.Routine.Resolver.{Shuffles}
use model_lib.Routine.Tunnels.{
  Network, tunnel, local, Action, Attempt, tcp_client_forward, tcp_server_forward, Listener,
  Spawned, accept_loop, listen, spawn_tcp_client, spawn_tcp_server,
}
use model_lib.Routine.Tunnels.Laws.{Served, forward_to-Served}

-- Each connection that is accepted before the first error, which ends the program, has its goroutine.
abbrev pub ServedAll : Network → Bytes → List (Result Attempt) → Spawned → Type 0
ServedAll network endpoint accepts s =
    AcceptedAll (Served network endpoint) (λ e. e) accepts s.goroutines s.fatal

-- The resolver's shuffle is one.
abbrev pub AllShuffle : List (Result Attempt) → Type 0
AllShuffle [] = Unit {0}
AllShuffle (err e ∷ accepts) = AllShuffle accepts
AllShuffle (ok a ∷ accepts) = Shuffles a.lookups.shuffle × AllShuffle accepts

accept_loop-ServedAll :
    (network : Network) (endpoint : Bytes) (forward : Attempt → List Action)
    → ((a : Attempt) → Shuffles a.lookups.shuffle → Served network endpoint a (forward a))
    → (accepts : List (Result Attempt)) → AllShuffle accepts
    → ServedAll network endpoint accepts (accept_loop forward accepts)
unfolding accept_loop
accept_loop-ServedAll network endpoint forward each [] s = waiting
accept_loop-ServedAll network endpoint forward each (err e ∷ accepts) s = stopped e accepts
accept_loop-ServedAll network endpoint forward each (ok a ∷ accepts) (s, rest) =
    served (each a s) (accept_loop-ServedAll network endpoint forward each accepts rest)

-- A tunnel that cannot start has no goroutine and ends the program.
abbrev pub Serves : Network → Bytes → Listener → Spawned → Type 0
Serves network endpoint l s =
    ((raddr : AddressPort) × (parse_address_port endpoint ≡ ok raddr)
      × (l.listen_error ≡ none)
      × ServedAll network endpoint l.accepts s)
    ⊎ ((e : Error) × ((parse_address_port endpoint ≡ err e) ⊎ (l.listen_error ≡ some e))
        × (s ≡ record { goroutines = []; fatal = some e }))

listen-Serves :
    (network : Network) (endpoint : Bytes) (forward : AddressPort → Attempt → List Action)
    (l : Listener)
    → ((raddr : AddressPort) (a : Attempt)
        → parse_address_port endpoint ≡ ok raddr
        → Shuffles a.lookups.shuffle
        → Served network endpoint a (forward raddr a))
    → AllShuffle l.accepts
    → Serves network endpoint l (listen forward l (parse_address_port endpoint))
unfolding listen
listen-Serves network endpoint forward l each s =
    elim (Result-cases (parse_address_port endpoint)) [
      | inr (e, bad) ↦ inr (e, inl bad, rw bad)
      | inl (raddr, parsed) ↦ elim (Option-cases l.listen_error) [
        | inr (e, failed) ↦ inr (e, inr failed, rw parsed (rw (listen, failed)))
        | inl fine ↦ inl (
          raddr,
          parsed,
          fine,
          rw parsed (
              subst (λ (o : Option Error). ServedAll network endpoint l.accepts (started raddr o))
                (sym fine)
                (accept_loop-ServedAll network endpoint (forward raddr) (λ a. each raddr a parsed)
                  l.accepts s)),
        )
      ]
    ]
  where
    started : AddressPort → Option Error → Spawned
    started raddr o = elim o [
      | some e ↦ record { goroutines = []; fatal = some e }
      | none ↦ accept_loop (forward raddr) l.accepts
    ]

-- A TCP client tunnel dials through the WireGuard device, a TCP server tunnel outside it. If the target
-- reads as a host and a port and the listening works, each connection that is accepted before the first
-- error of Accept, which ends the program, has its goroutine: the target is dialled exactly if its host
-- resolves then, at an address that the host resolves to and the target's port, and the connection is
-- forwarded exactly if that dial succeeds too. Else the tunnel ends the program with the error, and dials
-- nothing.
pub spawn_tcp-Serves :
    (client : TcpClientTunnelConfig) (server : TcpServerTunnelConfig) (l : Listener)
    → AllShuffle l.accepts
    → Serves tunnel client.target l (spawn_tcp_client client l)
      × Serves local server.target l (spawn_tcp_server server l)
unfolding spawn_tcp_client spawn_tcp_server tcp_client_forward tcp_server_forward
spawn_tcp-Serves client server l s = (
  listen-Serves tunnel client.target tcp_client_forward l
      (λ raddr a parsed shuffles. forward_to-Served tunnel client.target raddr a shuffles parsed) s,
  listen-Serves local server.target tcp_server_forward l
      (λ raddr a parsed shuffles. forward_to-Served local server.target raddr a shuffles parsed) s,
)

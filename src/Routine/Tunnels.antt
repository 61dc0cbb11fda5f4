-- ===== src/Routine/Tunnels.antt =====
-- routine.go: the TCP tunnels. A tunnel resolves the host of its target for each connection, dials it and
-- starts the two goroutines of model_lib.Forward.
pub mod Laws
pub mod Listen
pub mod Stdio
mod Tests
use model_lib.Base.{
  ℕ, Bool, true, false, Option, none, some, List, [], ◌∷◌, Bytes, Error, Result, ok, err,
}
use model_lib.Config.Types.{Addr, TcpClientTunnelConfig, StdioTunnelConfig, TcpServerTunnelConfig}
use model_lib.Routine.{AddressPort, parse_address_port, Lookups, resolve_to_addr_port}

-- `vt.Tnet.DialTCP`, through the WireGuard device, or `net.DialTCP`
pub data Network : Type 0 where
  tunnel local : Network

-- What a goroutine does for a connection. `log_error` leaves out the text in front of the error;
-- `forward_both` is the two calls of `connForward`.
pub data Action : Type 0 where
  log_error : Error → Action
  open_stdout : Action
  dial : Network → Addr × ℕ → Action
  forward_both : Action

-- What one connection meets: the resolver at the time, and the errors of the calls, if there are any.
pub record Attempt : Type 0 where
  pub lookups : Lookups
  pub stdout_error : Option Error
  pub dial_error : Option Error

pub dial_target : Network → Attempt → Addr × ℕ → List Action
dial_target network a target = elim a.dial_error [
  | some e ↦ dial network target ∷ log_error e ∷ []
  | none ↦ dial network target ∷ forward_both ∷ []
]

pub forward_to : Network → Attempt → Result (Addr × ℕ) → List Action
forward_to network a (err e) = log_error e ∷ []
forward_to network a (ok target) = dial_target network a target

pub tcp_client_forward : AddressPort → Attempt → List Action
unfolding forward_to
tcp_client_forward raddr a = forward_to tunnel a (resolve_to_addr_port a.lookups raddr)

pub tcp_server_forward : AddressPort → Attempt → List Action
unfolding forward_to
tcp_server_forward raddr a = forward_to local a (resolve_to_addr_port a.lookups raddr)

stdio_to : Attempt → Result (Addr × ℕ) → List Action
stdio_to a (err e) = log_error e ∷ []
stdio_to a (ok target) = elim a.stdout_error [
  | some e ↦ open_stdout ∷ log_error e ∷ []
  | none ↦ open_stdout ∷ dial_target tunnel a target
]

pub stdio_tcp_forward : AddressPort → Attempt → List Action
unfolding stdio_to
stdio_tcp_forward raddr a = stdio_to a (resolve_to_addr_port a.lookups raddr)

-- What a listener does: the error of listening, and what its calls of Accept return, up to the call that
-- still waits.
pub record Listener : Type 0 where
  pub listen_error : Option Error
  pub accepts : List (Result Attempt)

-- What a routine does: the actions of each of its goroutines, and the error that ends the program by
-- log.Fatal.
pub record Spawned : Type 0 where
  pub goroutines : List (List Action)
  pub fatal : Option Error

abbrev pub fails : Error → Spawned
fails e = record { goroutines = []; fatal = some e }

abbrev pub and_goroutine : List Action → Spawned → Spawned
and_goroutine acts s = record s { goroutines = acts ∷ s.goroutines }

-- The loop over Accept.
pub accept_loop : (Attempt → List Action) → List (Result Attempt) → Spawned
accept_loop forward [] = record { goroutines = []; fatal = none }
accept_loop forward (err e ∷ accepts) = fails e
accept_loop forward (ok a ∷ accepts) = and_goroutine (forward a) (accept_loop forward accepts)

pub listen : (AddressPort → Attempt → List Action) → Listener → Result AddressPort → Spawned
listen forward l (err e) = fails e
listen forward l (ok raddr) = elim l.listen_error [
  | some e ↦ fails e
  | none ↦ accept_loop (forward raddr) l.accepts
]

pub spawn_tcp_client : TcpClientTunnelConfig → Listener → Spawned
unfolding listen
spawn_tcp_client conf l = listen tcp_client_forward l (parse_address_port conf.target)

pub spawn_tcp_server : TcpServerTunnelConfig → Listener → Spawned
unfolding listen
spawn_tcp_server conf l = listen tcp_server_forward l (parse_address_port conf.target)

spawn_forward : Attempt → Result AddressPort → Spawned
spawn_forward a (err e) = fails e
spawn_forward a (ok raddr) = record { goroutines = stdio_tcp_forward raddr a ∷ []; fatal = none }

pub spawn_stdio : StdioTunnelConfig → Attempt → Spawned
unfolding spawn_forward
spawn_stdio conf a = spawn_forward a (parse_address_port conf.target)

-- ===== src/Routine/Tunnels/Stdio.antt =====
-- routine.go: the tunnel between the standard input and output and its target.
use model_lib.Base.{
  ℕ, false, ◌&&◌, none, Option-cases, List, [], ◌∷◌, if◌then◌else◌, ◌≡◌, ◌⊎◌, refl, ap, ◌∙◌, inl,
  inr, Bytes, Error, ok, err, Result-cases,
}
use model_lib.Config.Types.{Addr, StdioTunnelConfig}
use model_lib.Routine.{AddressPort, parse_address_port, resolve_to_addr_port}
use model_lib.Routine.Resolver.{Shuffles}
use model_lib.Routine.Tunnels.{
  tunnel, Action, Attempt, stdio_to, stdio_tcp_forward, fails, spawn_forward, spawn_stdio,
}
use model_lib.Routine.Tunnels.Laws.{
  dialled, forwarded, is_none, Resolves, resolve_to_addr_port-Resolves,
  Resolves-resolve_to_addr_port, dial_target_lem,
}

-- The target is dialled if it resolves and the output opens; it is forwarded if the dial succeeds too.
abbrev pub StdioServed : Bytes → Attempt → List Action → Type 0
StdioServed endpoint a acts =
    ((addr : Addr) × (port : ℕ) × Resolves endpoint a.lookups addr port
      × (dialled acts ≡ (if is_none a.stdout_error then (tunnel, addr, port) ∷ [] else []))
      × (forwarded acts ≡ (is_none a.stdout_error && is_none a.dial_error)))
    ⊎ (((addr : Addr) (port : ℕ) → ¬ Resolves endpoint a.lookups addr port)
        × (dialled acts ≡ [])
        × (forwarded acts ≡ false))

stdio_to-ok :
    (a : Attempt) (target : Addr × ℕ)
    → (dialled (stdio_to a (ok target))
        ≡ (if is_none a.stdout_error then (tunnel, target.0, target.1) ∷ [] else []))
      × (forwarded (stdio_to a (ok target)) ≡ (is_none a.stdout_error && is_none a.dial_error))
unfolding stdio_to dialled forwarded
stdio_to-ok a target =
    let (at, handed) = dial_target_lem tunnel a target in
    elim (Option-cases a.stdout_error) [
      | inl fine ↦ (rw (stdio_to, fine) at, rw (stdio_to, fine) handed)
      | inr (e, failed) ↦ (rw (stdio_to, failed), rw (stdio_to, failed))
    ]

stdio_tcp_forward-StdioServed :
    (endpoint : Bytes) (raddr : AddressPort) (a : Attempt)
    → Shuffles a.lookups.shuffle
    → parse_address_port endpoint ≡ ok raddr
    → StdioServed endpoint a (stdio_tcp_forward raddr a)
unfolding stdio_tcp_forward
stdio_tcp_forward-StdioServed endpoint raddr a shuffles parsed =
    elim (Result-cases (resolve_to_addr_port a.lookups raddr)) [
      | inl (target, e) ↦
          let (at, handed) = stdio_to-ok a target in
          inl (
            target.0,
            target.1,
            resolve_to_addr_port-Resolves a.lookups endpoint raddr shuffles parsed e,
            ap (λ r. dialled (stdio_to a r)) e ∙ at,
            ap (λ r. forwarded (stdio_to a r)) e ∙ handed,
          )
      | inr (bad, e) ↦ inr (
        (λ addr port r.
            let (target, ok_) =
              Resolves-resolve_to_addr_port a.lookups endpoint raddr addr port shuffles parsed r in
            cc (ok_, e)),
        ap (λ r. dialled (stdio_to a r)) e ∙ (unfold dialled stdio_to in refl),
        ap (λ r. forwarded (stdio_to a r)) e ∙ (unfold forwarded stdio_to in refl),
      )
    ]

-- If the target of a STDIO tunnel reads as a host and a port, there is one goroutine: it dials the target
-- exactly if its host resolves and the output opens, at an address that the host resolves to and the
-- target's port, and forwards exactly if the dial succeeds too. Else the program ends with the error.
pub spawn_stdio-StdioServed :
    (conf : StdioTunnelConfig) (a : Attempt)
    → Shuffles a.lookups.shuffle
    → ((raddr : AddressPort) × (acts : List Action) × (parse_address_port conf.target ≡ ok raddr)
        × (spawn_stdio conf a ≡ record { goroutines = acts ∷ []; fatal = none })
        × StdioServed conf.target a acts)
      ⊎ ((e : Error) × (parse_address_port conf.target ≡ err e) × (spawn_stdio conf a ≡ fails e))
unfolding spawn_stdio
spawn_stdio-StdioServed conf a shuffles = elim (Result-cases (parse_address_port conf.target)) [
  | inl (raddr, parsed) ↦ inl (
    raddr,
    stdio_tcp_forward raddr a,
    parsed,
    ap (spawn_forward a) parsed ∙ (unfold spawn_forward in refl),
    stdio_tcp_forward-StdioServed conf.target raddr a shuffles parsed,
  )
  | inr (e, bad) ↦ inr (e, bad, ap (spawn_forward a) bad ∙ (unfold spawn_forward in refl))
]

-- ===== src/Routine/Tunnels/Laws.antt =====
-- routine.go: where a TCP tunnel connects, and which connections are forwarded.
use model_lib.Base.{
  ℕ, ◌≤◌, Bool, true, false, Option, none, some, Option-cases, List, [], ◌∷◌, ◌≡◌, ◌⊎◌, sym, ap,
  ◌∙◌, arith, inl, inr, Bytes, Error, ok, Result-cases, ◌>>=◌, bind-eq-ok, subst,
}
use model_lib.Base.Int.{pos}
use model_lib.Strconv.{atoi}
use model_lib.Net.{split_host_port}
use model_lib.Config.Types.{Addr}
use model_lib.Routine.{
  AddressPort, parse_address_port, Lookups, lookup_addr, resolve_addr_with_context,
  resolve_to_addr_port,
}
use model_lib.Routine.Address.{parse_address_port_bounds}
use model_lib.Routine.Resolver.{Shuffles, Parses, resolve_addr-Parses}
use model_lib.Routine.Tunnels.{
  Network, Action, log_error, open_stdout, dial, forward_both, Attempt, dial_target, forward_to,
}

-- What is dialled, and whether the connection is handed to the goroutines that copy.
unfoldable pub dialled : List Action → List (Network × Addr × ℕ)
dialled [] = []
dialled (dial network target ∷ acts) = (network, target.0, target.1) ∷ dialled acts
dialled (log_error e ∷ acts) = dialled acts
dialled (open_stdout ∷ acts) = dialled acts
dialled (forward_both ∷ acts) = dialled acts

unfoldable pub forwarded : List Action → Bool
forwarded [] = false
forwarded (forward_both ∷ acts) = true
forwarded (dial network target ∷ acts) = forwarded acts
forwarded (log_error e ∷ acts) = forwarded acts
forwarded (open_stdout ∷ acts) = forwarded acts

abbrev pub is_none : Option Error → Bool
is_none none = true
is_none (some e) = false

-- The host of the endpoint is looked up, one of the texts that are found is the address, and the port is
-- that of the endpoint.
pub record Resolves (endpoint : Bytes) (w : Lookups) (addr : Addr) (port : ℕ) : Type 0 where
  pub host : Bytes
  pub sport : Bytes
  pub addrs : List Bytes
  pub split : split_host_port endpoint ≡ ok (host, sport)
  pub number : atoi sport ≡ ok (pos port)
  pub small : port ≤ 65535
  pub found : lookup_addr w host ≡ ok addrs
  pub parsed : Parses w.parse_addr addrs addr

pub resolve_to_addr_port-Resolves :
    (w : Lookups) (endpoint : Bytes) (raddr : AddressPort) {target : Addr × ℕ}
    → Shuffles w.shuffle
    → parse_address_port endpoint ≡ ok raddr
    → resolve_to_addr_port w raddr ≡ ok target
    → Resolves endpoint w target.0 target.1
unfolding resolve_to_addr_port resolve_addr_with_context
resolve_to_addr_port-Resolves w endpoint raddr {target} shuffles parsed e =
    let (addr, resolved, same) = bind-eq-ok (resolve_addr_with_context w raddr.address) _ e in
    let (addrs, found, picked) = bind-eq-ok (lookup_addr w raddr.address) _ resolved in
    let (sport, split, number, small) = parse_address_port_bounds endpoint parsed in
    subst (λ (t : Addr × ℕ). Resolves endpoint w t.0 t.1) (ground (arith, same))
      (record {
        host = raddr.address;
        sport = sport;
        addrs = addrs;
        split = split;
        number = number;
        small = small;
        found = found;
        parsed = (resolve_addr-Parses w raddr.address addrs shuffles found).0 addr resolved;
      })

-- The other direction: where the host resolves to some address, an address is found.
pub Resolves-resolve_to_addr_port :
    (w : Lookups) (endpoint : Bytes) (raddr : AddressPort) (addr : Addr) (port : ℕ)
    → Shuffles w.shuffle
    → parse_address_port endpoint ≡ ok raddr
    → Resolves endpoint w addr port
    → (target : Addr × ℕ) × (resolve_to_addr_port w raddr ≡ ok target)
unfolding resolve_to_addr_port
Resolves-resolve_to_addr_port w endpoint raddr addr port shuffles parsed r =
    let (sport, split, number, small) = parse_address_port_bounds endpoint parsed in
    let same : r.host ≡ raddr.address = cc (r.split, split) in
    let (found, resolved) =
      (resolve_addr-Parses w raddr.address r.addrs shuffles
          (ap (lookup_addr w) (sym same) ∙ r.found)).1
        addr r.parsed in
    ((found, raddr.port), ap (λ m. m >>= λ (a : Addr). ok (a, raddr.port)) resolved)

-- For a connection: the target is dialled if it resolves, and the connection is forwarded if the dial
-- succeeds too. Else nothing is dialled, and the connection is not forwarded.
abbrev pub Served : Network → Bytes → Attempt → List Action → Type 0
Served network endpoint a acts =
    ((addr : Addr) × (port : ℕ) × Resolves endpoint a.lookups addr port
      × (dialled acts ≡ (network, addr, port) ∷ [])
      × (forwarded acts ≡ is_none a.dial_error))
    ⊎ (((addr : Addr) (port : ℕ) → ¬ Resolves endpoint a.lookups addr port)
        × (dialled acts ≡ [])
        × (forwarded acts ≡ false))

pub dial_target_lem :
    (network : Network) (a : Attempt) (target : Addr × ℕ)
    → (dialled (dial_target network a target) ≡ (network, target.0, target.1) ∷ [])
      × (forwarded (dial_target network a target) ≡ is_none a.dial_error)
unfolding dial_target dialled forwarded
dial_target_lem network a target = elim (Option-cases a.dial_error) [
  | inl fine ↦ (rw (dial_target, fine), rw (dial_target, fine))
  | inr (e, failed) ↦ (rw (dial_target, failed), rw (dial_target, failed))
]

pub forward_to-Served :
    (network : Network) (endpoint : Bytes) (raddr : AddressPort) (a : Attempt)
    → Shuffles a.lookups.shuffle
    → parse_address_port endpoint ≡ ok raddr
    → Served network endpoint a (forward_to network a (resolve_to_addr_port a.lookups raddr))
unfolding forward_to dialled forwarded
forward_to-Served network endpoint raddr a shuffles parsed =
    elim (Result-cases (resolve_to_addr_port a.lookups raddr)) [
      | inl (target, e) ↦
          let (at, handed) = dial_target_lem network a target in
          inl (
            target.0,
            target.1,
            resolve_to_addr_port-Resolves a.lookups endpoint raddr shuffles parsed e,
            ap (λ r. dialled (forward_to network a r)) e ∙ at,
            ap (λ r. forwarded (forward_to network a r)) e ∙ handed,
          )
      | inr (bad, e) ↦ inr (
        (λ addr port r.
            let (target, ok_) =
              Resolves-resolve_to_addr_port a.lookups endpoint raddr addr port shuffles parsed r in
            cc (ok_, e)),
        ap (λ r. dialled (forward_to network a r)) e,
        ap (λ r. forwarded (forward_to network a r)) e,
      )
    ]

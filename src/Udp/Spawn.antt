-- ===== src/Udp/Spawn.antt =====
-- udp_proxy.go: the start of a UDP tunnel, up to its loops.
use model_lib.Base.{ℕ, ◌*◌, Option, none, some, codes, ◌++◌, Error, wrapped, Result, ok, err}
use model_lib.Base.Int.{ℤ, pos, pos_part, neg_part, sub_ℕ, ltb_ℤ}
use model_lib.Routine.{second, wrap64}
use model_lib.Config.Types.{UdpProxyTunnelConfig}
use model_lib.Udp.{TunnelSettings, State}
use model_lib.Udp.Steps.{initial}

-- A product that wraps below zero makes every session expire at once, as zero does.
abbrev pub inactivity_dur : ℤ → ℕ
inactivity_dur timeout =
    pos_part (wrap64 (sub_ℕ (pos_part timeout * second) (neg_part timeout * second)))

abbrev pub settings_of : UdpProxyTunnelConfig → TunnelSettings
settings_of conf = record {
  target = conf.target;
  enabled = ltb_ℤ (pos 0) conf.inactivity_timeout;
  duration = inactivity_dur conf.inactivity_timeout;
}

-- The errors of ResolveUDPAddr and ListenUDP end the program; otherwise the loops start from the empty
-- table.
pub spawn_udp : UdpProxyTunnelConfig → Option Error → Option Error → Result (TunnelSettings × State)
spawn_udp conf resolve_error listen_error = elim resolve_error [
  | some e ↦ err (
      wrapped (codes "UDPProxyTunnelConfig: could not resolve bind address " ++ conf.bind_address)
        e)
  | none ↦ elim listen_error [
    | some e ↦
        err (wrapped (codes "UDPProxyTunnelConfig: could not listen on " ++ conf.bind_address) e)
    | none ↦ ok (settings_of conf, initial)
  ]
]

-- ===== src/Config/Routines/Sections.antt =====
-- config.go: what a section says of its tunnel or proxy, and that its parser accepts exactly that.
use model_lib.Base.{
  some, Option-cases, [], ◌≡◌, ◌↔◌, ◌⊎◌, inl, inr, refl, sym, ap, ◌∙◌, Bytes, codes, Error, Result,
  ok, err, bind-eq-ok, bind-ok, ok-injective,
}
use model_lib.Base.Int.{ℤ, pos, ◌≤ℤ◌}
use model_lib.Ini.{Key, Section}
use model_lib.Config.Types.{
  World, TcpClientTunnelConfig, StdioTunnelConfig, TcpServerTunnelConfig, Socks5Config, HttpConfig,
  UdpProxyTunnelConfig, RoutineSpawner, tcp_client, stdio, tcp_server, socks5, http, udp_proxy,
}
use model_lib.Config.Values.{parse_string, parse_port, parse_tcp_addr}
use model_lib.Config.Values.Laws.{parse_port_iff}
use model_lib.Config.Interface.{optional_int}
use model_lib.Config.Interface.Laws.{IntOf, optional_int-IntOf, IntOf-optional_int}
use model_lib.Config.Routines.{
  or_empty, parse_tcp_client_tunnel_config, parse_stdio_tunnel_config,
  parse_tcp_server_tunnel_config, parse_socks5_config, parse_http_config,
  parse_udp_proxy_tunnel_config,
}

-- The key holds a number that is a port.
abbrev pub IsPort : Section → Bytes → ℤ → Type 0
IsPort s name p =
    (k : Key) × (s.key name ≡ some k) × (k.int ≡ ok p) × (pos 0 ≤ℤ p) × (p ≤ℤ pos 65535)

-- A text that may fail to be read: it is empty then.
abbrev pub IsText : Result Bytes → Bytes → Type 0
IsText r text = (r ≡ ok text) ⊎ ((e : Error) × (r ≡ err e) × (text ≡ []))

abbrev pub TcpClientOf : World → Section → RoutineSpawner → Type 0
TcpClientOf w s r =
    (c : TcpClientTunnelConfig) × (r ≡ tcp_client c)
    × (parse_tcp_addr w s (codes "BindAddress") ≡ ok c.bind_address)
    × (parse_string w s (codes "Target") ≡ ok c.target)

-- The tunnel reads from /dev/stdin and writes to /dev/stdout.
abbrev pub StdioOf : World → Section → RoutineSpawner → Type 0
StdioOf w s r =
    (c : StdioTunnelConfig) × (r ≡ stdio c)
    × (parse_string w s (codes "Target") ≡ ok c.target)
    × (c.input ≡ 0)
    × (c.output ≡ 1)

abbrev pub TcpServerOf : World → Section → RoutineSpawner → Type 0
TcpServerOf w s r =
    (c : TcpServerTunnelConfig) × (r ≡ tcp_server c)
    × IsPort s (codes "ListenPort") c.listen_port
    × (parse_string w s (codes "Target") ≡ ok c.target)

abbrev pub Socks5Of : World → Section → RoutineSpawner → Type 0
Socks5Of w s r =
    (c : Socks5Config) × (r ≡ socks5 c)
    × (parse_string w s (codes "BindAddress") ≡ ok c.bind_address)
    × IsText (parse_string w s (codes "Username")) c.username
    × IsText (parse_string w s (codes "Password")) c.password

abbrev pub HttpOf : World → Section → RoutineSpawner → Type 0
HttpOf w s r =
    (c : HttpConfig) × (r ≡ http c)
    × (parse_string w s (codes "BindAddress") ≡ ok c.bind_address)
    × IsText (parse_string w s (codes "Username")) c.username
    × IsText (parse_string w s (codes "Password")) c.password
    × IsText (parse_string w s (codes "CertFile")) c.cert_file
    × IsText (parse_string w s (codes "KeyFile")) c.key_file

-- Without InactivityTimeout, it is zero.
abbrev pub UdpProxyOf : World → Section → RoutineSpawner → Type 0
UdpProxyOf w s r =
    (c : UdpProxyTunnelConfig) × (r ≡ udp_proxy c)
    × (parse_string w s (codes "BindAddress") ≡ ok c.bind_address)
    × (parse_string w s (codes "Target") ≡ ok c.target)
    × IntOf (s.get_key (codes "InactivityTimeout")) (pos 0) c.inactivity_timeout

or_empty-IsText : (r : Result Bytes) → IsText r (or_empty r)
or_empty-IsText (ok text) = inl refl
or_empty-IsText (err e) = inr (e, refl, refl)

IsText-or_empty : (r : Result Bytes) (text : Bytes) → IsText r text → or_empty r ≡ text
IsText-or_empty r text (inl e) = ap or_empty e
IsText-or_empty r text (inr (bad, e, empty)) = ap or_empty e ∙ sym empty

parse_port-IsPort :
    (s : Section) (name : Bytes) {p : ℤ} → parse_port s name ≡ ok p → IsPort s name p
unfolding parse_port
parse_port-IsPort s name {p} e = elim (Option-cases (s.key name)) [
  | inl missing ↦ cc (rw (missing, parse_port) at e)
  | inr (k, found) ↦
      let (int, low, high) = (parse_port_iff s name k p found).0 e in (k, found, int, low, high)
]

IsPort-parse_port :
    (s : Section) (name : Bytes) {p : ℤ} → IsPort s name p → parse_port s name ≡ ok p
IsPort-parse_port s name {p} (k, found, int, low, high) =
    (parse_port_iff s name k p found).1 (int, low, high)

pub tcp_client_iff :
    (w : World) (s : Section) (r : RoutineSpawner)
    → (parse_tcp_client_tunnel_config w s ≡ ok r) ↔ TcpClientOf w s r
unfolding parse_tcp_client_tunnel_config
tcp_client_iff w s r = (
  (λ e0.
      let (addr, r1, e1) = bind-eq-ok (parse_tcp_addr w s (codes "BindAddress")) _ e0 in
      let (target, r2, e2) = bind-eq-ok (parse_string w s (codes "Target")) _ e1 in
      (_, sym (ok-injective e2), r1, r2)),
  λ (c, same, addr, target). bind-ok _ addr (bind-ok _ target (ap ok (sym same))),
)

pub stdio_iff :
    (w : World) (s : Section) (r : RoutineSpawner)
    → (parse_stdio_tunnel_config w s ≡ ok r) ↔ StdioOf w s r
unfolding parse_stdio_tunnel_config
stdio_iff w s r = (
  (λ e0.
      let (target, r1, e1) = bind-eq-ok (parse_string w s (codes "Target")) _ e0 in
      (_, sym (ok-injective e1), r1, refl, refl)),
  λ (c, same, target, input, output). bind-ok _ target (
      (λ i. ok (stdio (record c { input = sym input i; output = sym output i })))
      ∙ ap ok (sym same)),
)

pub tcp_server_iff :
    (w : World) (s : Section) (r : RoutineSpawner)
    → (parse_tcp_server_tunnel_config w s ≡ ok r) ↔ TcpServerOf w s r
unfolding parse_tcp_server_tunnel_config
tcp_server_iff w s r = (
  (λ e0.
      let (port, r1, e1) = bind-eq-ok (parse_port s (codes "ListenPort")) _ e0 in
      let (target, r2, e2) = bind-eq-ok (parse_string w s (codes "Target")) _ e1 in
      (_, sym (ok-injective e2), parse_port-IsPort s (codes "ListenPort") r1, r2)),
  λ (c, same, port, target).
      bind-ok _ (IsPort-parse_port s (codes "ListenPort") port)
        (bind-ok _ target (ap ok (sym same))),
)

pub socks5_iff :
    (w : World) (s : Section) (r : RoutineSpawner)
    → (parse_socks5_config w s ≡ ok r) ↔ Socks5Of w s r
unfolding parse_socks5_config
socks5_iff w s r = (
  (λ e0.
      let (bind, r1, e1) = bind-eq-ok (parse_string w s (codes "BindAddress")) _ e0 in
      (_, sym (ok-injective e1), r1, or_empty-IsText _, or_empty-IsText _)),
  λ (c, same, bind, username, password). bind-ok _ bind (
      (λ i. ok (
        socks5 (record c {
          username = IsText-or_empty _ _ username i;
          password = IsText-or_empty _ _ password i;
        })))
      ∙ ap ok (sym same)),
)

pub http_iff :
    (w : World) (s : Section) (r : RoutineSpawner) → (parse_http_config w s ≡ ok r) ↔ HttpOf w s r
unfolding parse_http_config
http_iff w s r = (
  (λ e0.
      let (bind, r1, e1) = bind-eq-ok (parse_string w s (codes "BindAddress")) _ e0 in
      (
        _,
        sym (ok-injective e1),
        r1,
        or_empty-IsText _,
        or_empty-IsText _,
        or_empty-IsText _,
        or_empty-IsText _,
      )),
  λ (c, same, bind, username, password, cert_file, key_file). bind-ok _ bind (
      (λ i. ok (
        http (record c {
          username = IsText-or_empty _ _ username i;
          password = IsText-or_empty _ _ password i;
          cert_file = IsText-or_empty _ _ cert_file i;
          key_file = IsText-or_empty _ _ key_file i;
        })))
      ∙ ap ok (sym same)),
)

pub udp_proxy_iff :
    (w : World) (s : Section) (r : RoutineSpawner)
    → (parse_udp_proxy_tunnel_config w s ≡ ok r) ↔ UdpProxyOf w s r
unfolding parse_udp_proxy_tunnel_config
udp_proxy_iff w s r = (
  (λ e0.
      let (bind, r1, e1) = bind-eq-ok (parse_string w s (codes "BindAddress")) _ e0 in
      let (target, r2, e2) = bind-eq-ok (parse_string w s (codes "Target")) _ e1 in
      let (timeout, r3, e3) =
        bind-eq-ok (optional_int (s.get_key (codes "InactivityTimeout"))) _ e2 in
      (_, sym (ok-injective e3), r1, r2, optional_int-IntOf _ (pos 0) r3)),
  λ (c, same, bind, target, timeout).
      let (given, read_, value) =
        IntOf-optional_int (s.get_key (codes "InactivityTimeout")) (pos 0) timeout in
      bind-ok _ bind (
        bind-ok _ target (
          bind-ok _ read_ (
            (λ i. ok (udp_proxy (record c { inactivity_timeout = value i }))) ∙ ap ok (sym same)))),
)

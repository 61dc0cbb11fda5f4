-- ===== src/Config/File/Laws.antt =====
-- What an accepted configuration holds.
use model_lib.Base.{
  some, List, [], ◌∷◌, ◌++◌, ◌≡◌, ◌≢◌, refl, sym, ap, ◌∙◌, subst, Bytes, codes, ok, bind-eq-ok,
  ok-injective, Each, Each-map,
}
use model_lib.Ini
use model_lib.Ini.{Section}
use model_lib.Config.Types.{World, DeviceConfig, RoutineSpawner, Configuration}
use model_lib.Config.Interface.{parse_interface}
use model_lib.Config.Interface.Laws.{InterfaceOf, parse_interface-InterfaceOf}
use model_lib.Config.Peers.{parse_peers}
use model_lib.Config.Peers.Laws.{PeersOf, parse_peers-PeersOf}
use model_lib.Config.Routines.{
  parse_tcp_client_tunnel_config, parse_stdio_tunnel_config, parse_tcp_server_tunnel_config,
  parse_socks5_config, parse_http_config, parse_udp_proxy_tunnel_config, parse_routines_config,
}
use model_lib.Config.Routines.Sections.{
  TcpClientOf, StdioOf, TcpServerOf, Socks5Of, HttpOf, UdpProxyOf, tcp_client_iff, stdio_iff,
  tcp_server_iff, socks5_iff, http_iff, udp_proxy_iff,
}
use model_lib.Config.Routines.Laws.{sections_of, parse_routines_config-EachOk}
use model_lib.Config.File.{new_device, wireguard_file, choose_resolve, parse_device, parse_config}

-- The routines are those of the sections, name by name.
pub record RoutinesOf (w : World) (cfg : Ini.File) (routines : List RoutineSpawner) : Type 0 where
  pub tcp_clients : List RoutineSpawner
  pub stdios : List RoutineSpawner
  pub tcp_servers : List RoutineSpawner
  pub socks5s : List RoutineSpawner
  pub https : List RoutineSpawner
  pub udp_proxies : List RoutineSpawner
  pub in_order :
      routines ≡ (((((tcp_clients ++ stdios) ++ tcp_servers) ++ socks5s) ++ https) ++ udp_proxies)
  pub tcp_client_sections :
      Each (TcpClientOf w) (sections_of cfg (codes "TCPClientTunnel")) tcp_clients
  pub stdio_sections : Each (StdioOf w) (sections_of cfg (codes "STDIOTunnel")) stdios
  pub tcp_server_sections :
      Each (TcpServerOf w) (sections_of cfg (codes "TCPServerTunnel")) tcp_servers
  pub socks5_sections : Each (Socks5Of w) (sections_of cfg (codes "Socks5")) socks5s
  pub http_sections : Each (HttpOf w) (sections_of cfg (codes "http")) https
  pub udp_proxy_sections :
      Each (UdpProxyOf w) (sections_of cfg (codes "UDPProxyTunnel")) udp_proxies

-- The device is that of the one [Interface] section and of the [Peer] sections of the file.
pub record DeviceOf (w : World) (cfg : Ini.File) (d : DeviceConfig) : Type 0 where
  pub interface : Section
  pub peer_sections : List Section
  pub only_interface : cfg.sections_by_name (codes "Interface") ≡ some (interface ∷ [])
  pub peers_found : cfg.sections_by_name (codes "Peer") ≡ some peer_sections
  pub some_peer : peer_sections ≢ []
  pub fields : InterfaceOf w interface new_device (record d { peers = [] })
  pub peers : PeersOf w peer_sections d.peers

parse_device-DeviceOf :
    (w : World) (cfg : Ini.File) {d : DeviceConfig} → parse_device w cfg ≡ ok d → DeviceOf w cfg d
unfolding parse_device
parse_device-DeviceOf w cfg e0 =
    let (dev, r1, e1) = bind-eq-ok (parse_interface w cfg new_device) _ e0 in
    let (peers, r2, e2) = bind-eq-ok (parse_peers w cfg dev.peers) _ e1 in
    let (i, only, fields) = parse_interface-InterfaceOf w cfg new_device r1 in
    let (sections, new, found, some_peer, all, of) = parse_peers-PeersOf w cfg dev.peers r2 in
    let same : peers ≡ new = all ∙ ap (λ l. l ++ new) fields.peers in
    subst (λ d. DeviceOf w cfg d) (ok-injective e2)
      (record {
        interface = i;
        peer_sections = sections;
        only_interface = only;
        peers_found = found;
        some_peer = some_peer;
        fields = record {
          address = fields.address;
          key = fields.key;
          key_digits = fields.key_digits;
          dns = fields.dns;
          mtu = fields.mtu;
          port = fields.port;
          check_alive = fields.check_alive;
          interval = fields.interval;
          asec = fields.asec;
          peers = refl;
        };
        peers = subst (λ l. PeersOf w sections l) (sym same) of;
      })

-- The six calls of `parseRoutinesConfig`, each on the list that the one before returned.
RoutinesOf-chain :
    (w : World) (cfg : Ini.File) {l1 l2 l3 l4 l5 l6 : List RoutineSpawner}
    → parse_routines_config [] cfg (codes "TCPClientTunnel") (parse_tcp_client_tunnel_config w)
      ≡ ok l1
    → parse_routines_config l1 cfg (codes "STDIOTunnel") (parse_stdio_tunnel_config w) ≡ ok l2
    → parse_routines_config l2 cfg (codes "TCPServerTunnel") (parse_tcp_server_tunnel_config w)
      ≡ ok l3
    → parse_routines_config l3 cfg (codes "Socks5") (parse_socks5_config w) ≡ ok l4
    → parse_routines_config l4 cfg (codes "http") (parse_http_config w) ≡ ok l5
    → parse_routines_config l5 cfg (codes "UDPProxyTunnel") (parse_udp_proxy_tunnel_config w)
      ≡ ok l6
    → RoutinesOf w cfg l6
RoutinesOf-chain w cfg {l1} {l2} {l3} {l4} {l5} {l6} p1 p2 p3 p4 p5 p6 =
    let (n1, q1, s1) =
      parse_routines_config-EachOk [] cfg _ (parse_tcp_client_tunnel_config w) p1 in
    let (n2, q2, s2) = parse_routines_config-EachOk l1 cfg _ (parse_stdio_tunnel_config w) p2 in
    let (n3, q3, s3) =
      parse_routines_config-EachOk l2 cfg _ (parse_tcp_server_tunnel_config w) p3 in
    let (n4, q4, s4) = parse_routines_config-EachOk l3 cfg _ (parse_socks5_config w) p4 in
    let (n5, q5, s5) = parse_routines_config-EachOk l4 cfg _ (parse_http_config w) p5 in
    let (n6, q6, s6) = parse_routines_config-EachOk l5 cfg _ (parse_udp_proxy_tunnel_config w) p6 in
    record {
      tcp_clients = n1;
      stdios = n2;
      tcp_servers = n3;
      socks5s = n4;
      https = n5;
      udp_proxies = n6;
      in_order =
          q6
          ∙ ap (λ l. l ++ n6)
              (q5
                ∙ ap (λ l. l ++ n5)
                    (q4
                      ∙ ap (λ l. l ++ n4) (q3 ∙ ap (λ l. l ++ n3) (q2 ∙ ap (λ l. l ++ n2) (q1)))));
      tcp_client_sections = Each-map (λ s r. (tcp_client_iff w s r).0) s1;
      stdio_sections = Each-map (λ s r. (stdio_iff w s r).0) s2;
      tcp_server_sections = Each-map (λ s r. (tcp_server_iff w s r).0) s3;
      socks5_sections = Each-map (λ s r. (socks5_iff w s r).0) s4;
      http_sections = Each-map (λ s r. (http_iff w s r).0) s5;
      udp_proxy_sections = Each-map (λ s r. (udp_proxy_iff w s r).0) s6;
    }

-- What an accepted configuration was read from: `cfg` is the file, `wg_cfg` the one that its key
-- WGConfig names, or the file itself.
pub record ConfigurationOf (w : World) (path : Bytes) (c : Configuration) : Type 0 where
  pub cfg : Ini.File
  pub wg_cfg : Ini.File
  pub loaded : w.load_sources path ≡ ok cfg
  pub wireguard : wireguard_file w cfg ((cfg.section []).get_key (codes "WGConfig")) ≡ ok wg_cfg
  pub device : DeviceOf w wg_cfg c.device
  pub routines : RoutinesOf w cfg c.routines
  pub resolve : choose_resolve w (cfg.get_section (codes "Resolve")) ≡ ok c.resolve

pub parse_config-ConfigurationOf :
    (w : World) (path : Bytes) {c : Configuration}
    → parse_config w path ≡ ok c
    → ConfigurationOf w path c
unfolding parse_config
parse_config-ConfigurationOf w path e =
    let (cfg, loaded, e0) = bind-eq-ok (w.load_sources path) _ e in
    let (wg_cfg, wireguard, e1) =
      bind-eq-ok (wireguard_file w cfg ((cfg.section []).get_key (codes "WGConfig"))) _ e0 in
    let (device, device_ok, e2) = bind-eq-ok (parse_device w wg_cfg) _ e1 in
    let (l1, p1, e3) =
      bind-eq-ok
        (parse_routines_config [] cfg (codes "TCPClientTunnel") (parse_tcp_client_tunnel_config w))
        _ e2 in
    let (l2, p2, e4) =
      bind-eq-ok (parse_routines_config l1 cfg (codes "STDIOTunnel") (parse_stdio_tunnel_config w))
        _ e3 in
    let (l3, p3, e5) =
      bind-eq-ok
        (parse_routines_config l2 cfg (codes "TCPServerTunnel") (parse_tcp_server_tunnel_config w))
        _ e4 in
    let (l4, p4, e6) =
      bind-eq-ok (parse_routines_config l3 cfg (codes "Socks5") (parse_socks5_config w)) _ e5 in
    let (l5, p5, e7) =
      bind-eq-ok (parse_routines_config l4 cfg (codes "http") (parse_http_config w)) _ e6 in
    let (resolve, resolve_ok, e8) =
      bind-eq-ok (choose_resolve w (cfg.get_section (codes "Resolve"))) _ e7 in
    let (l6, p6, e9) =
      bind-eq-ok
        (parse_routines_config l5 cfg (codes "UDPProxyTunnel") (parse_udp_proxy_tunnel_config w)) _
        e8 in
    subst (λ c. ConfigurationOf w path c) (ok-injective e9)
      (record {
        cfg = cfg;
        wg_cfg = wg_cfg;
        loaded = loaded;
        wireguard = wireguard;
        device = parse_device-DeviceOf w wg_cfg device_ok;
        routines = RoutinesOf-chain w cfg p1 p2 p3 p4 p5 p6;
        resolve = resolve_ok;
      })

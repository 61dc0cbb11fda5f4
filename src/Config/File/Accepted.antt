-- ===== src/Config/File/Accepted.antt =====
-- config.go: the configurations that ParseConfig accepts.
use model_lib.Base.{[], ◌++◌, ◌≡◌, ◌↔◌, refl, sym, Bytes, codes, ok, bind-ok, Each-map}
use model_lib.Ini
use model_lib.Ini.{Section}
use model_lib.Config.Types.{World, DeviceConfig, Configuration}
use model_lib.Config.Interface.Laws.{parse_interface_iff}
use model_lib.Config.Peers.Laws.{parse_peers_iff}
use model_lib.Config.Routines.{
  parse_tcp_client_tunnel_config, parse_stdio_tunnel_config, parse_tcp_server_tunnel_config,
  parse_socks5_config, parse_http_config, parse_udp_proxy_tunnel_config,
}
use model_lib.Config.Routines.Sections.{
  tcp_client_iff, stdio_iff, tcp_server_iff, socks5_iff, http_iff, udp_proxy_iff,
}
use model_lib.Config.Routines.Laws.{EachOk-parse_routines_config}
use model_lib.Config.File.{new_device, parse_device, parse_config}
use model_lib.Config.File.Laws.{DeviceOf, ConfigurationOf, parse_config-ConfigurationOf}

DeviceOf-parse_device :
    (w : World) (cfg : Ini.File) (d : DeviceConfig) → DeviceOf w cfg d → parse_device w cfg ≡ ok d
unfolding parse_device
DeviceOf-parse_device w cfg d of =
    bind-ok _
      ((parse_interface_iff w cfg new_device (record d { peers = [] })).1
        (of.interface, of.only_interface, of.fields))
      (bind-ok _
        ((parse_peers_iff w cfg [] d.peers).1
          (of.peer_sections, d.peers, of.peers_found, of.some_peer, refl, of.peers))
        refl)

ConfigurationOf-parse_config :
    (w : World) (path : Bytes) (c : Configuration)
    → ConfigurationOf w path c
    → parse_config w path ≡ ok c
unfolding parse_config
ConfigurationOf-parse_config w path c of =
    let r = of.routines in
    let step1 =
      EachOk-parse_routines_config [] of.cfg (codes "TCPClientTunnel")
        (parse_tcp_client_tunnel_config w)
        (Each-map (λ s q. (tcp_client_iff w s q).1) r.tcp_client_sections) in
    let step2 =
      EachOk-parse_routines_config r.tcp_clients of.cfg (codes "STDIOTunnel")
        (parse_stdio_tunnel_config w) (Each-map (λ s q. (stdio_iff w s q).1) r.stdio_sections) in
    let step3 =
      EachOk-parse_routines_config (r.tcp_clients ++ r.stdios) of.cfg (codes "TCPServerTunnel")
        (parse_tcp_server_tunnel_config w)
        (Each-map (λ s q. (tcp_server_iff w s q).1) r.tcp_server_sections) in
    let step4 =
      EachOk-parse_routines_config ((r.tcp_clients ++ r.stdios) ++ r.tcp_servers) of.cfg
        (codes "Socks5") (parse_socks5_config w)
        (Each-map (λ s q. (socks5_iff w s q).1) r.socks5_sections) in
    let step5 =
      EachOk-parse_routines_config (((r.tcp_clients ++ r.stdios) ++ r.tcp_servers) ++ r.socks5s)
        of.cfg (codes "http") (parse_http_config w)
        (Each-map (λ s q. (http_iff w s q).1) r.http_sections) in
    let step6 =
      EachOk-parse_routines_config
        ((((r.tcp_clients ++ r.stdios) ++ r.tcp_servers) ++ r.socks5s) ++ r.https) of.cfg
        (codes "UDPProxyTunnel") (parse_udp_proxy_tunnel_config w)
        (Each-map (λ s q. (udp_proxy_iff w s q).1) r.udp_proxy_sections) in
    bind-ok _ of.loaded (
      bind-ok _ of.wireguard (
        bind-ok _ (DeviceOf-parse_device w of.wg_cfg c.device of.device) (
          bind-ok _ step1 (
            bind-ok _ step2 (
              bind-ok _ step3 (
                bind-ok _ step4 (
                  bind-ok _ step5 (
                    bind-ok _ of.resolve
                      (bind-ok _ step6 (λ i. ok (record c { routines = sym r.in_order i })))))))))))

-- ParseConfig accepts a file exactly if there is a configuration as the file describes it, and returns
-- this one. Its device is that of the WireGuard file: one [Interface] and at least one [Peer], with what
-- their sections say. Its routines are those of the sections of the main file, name by name in the order
-- TCPClientTunnel, STDIOTunnel, TCPServerTunnel, Socks5, http, UDPProxyTunnel, and section by section
-- under each name, each with what its section says; none is lost or added.
pub parse_config_iff :
    (w : World) (path : Bytes) (c : Configuration)
    → (parse_config w path ≡ ok c) ↔ ConfigurationOf w path c
parse_config_iff w path c =
    (parse_config-ConfigurationOf w path, ConfigurationOf-parse_config w path c)

-- ===== src/Ipc/Tests.antt =====
-- The request of a small configuration, and its settings.
use model_lib.Base.{true, some, [], ◌∷◌, ◌≡◌, refl, arith, codes}
use model_lib.Base.Int.{pos}
use model_lib.Strconv.{itoa}
use model_lib.Awg.Config.{zero_config}
use model_lib.Awg.Header.{format_magic_header_interval}
use model_lib.Config.Types.{PeerConfig, DeviceConfig}
use model_lib.Config.File.{new_device}
use model_lib.Ipc.{
  create_ipc_request, asec_lines, size_lines, header_lines, packet_lines, peers_lines, peer_lines,
  allowed_or_all, port_line,
}
use model_lib.Ipc.Settings.{device_settings, IsOneLine}
use model_lib.Ipc.RoundTrip.{read_request}
use model_lib.Ipc.Clean.{read_request-create_ipc_request}

abbrev peer : PeerConfig
peer = record {
  public_key = codes "aa";
  pre_shared_key = codes "00";
  endpoint = some (codes "192.0.2.1:51820");
  keep_alive = pos 25;
  allowed_ips = [];
}

abbrev device : DeviceConfig
device = record new_device {
  secret_key = codes "bb";
  listen_port = some (pos 51820);
  asec_config = some (record zero_config {
    junk_packet_count = pos 4;
    has_junk_packet_count = true;
    init_packet_magic_header = 100;
    init_packet_magic_header_max = 200;
    has_init_packet_magic_header = true;
    i1 = some (codes "<b 0x01>");
  });
  peers = peer ∷ [];
}

device-IsOneLine : IsOneLine device
device-IsOneLine = record {
  secret_key = omega arith;
  asec = ((omega arith), tt, tt, tt, tt);
  peers = (
    (record {
      public_key = omega arith;
      pre_shared_key = omega arith;
      endpoint = omega arith;
      allowed_ips = tt;
    }),
    tt,
  );
}

request-run :
    (create_ipc_request device).ipc_request
    ≡ codes
        "private_key=bb\nlisten_port=51820\njc=4\nh1=100-200\ni1=<b 0x01>\npublic_key=aa\npersistent_keepalive_interval=25\npreshared_key=00\nendpoint=192.0.2.1:51820\nallowed_ip=0.0.0.0/0\nallowed_ip=::0/0\n"
unfolding create_ipc_request port_line itoa asec_lines size_lines header_lines
    format_magic_header_interval packet_lines peers_lines peer_lines allowed_or_all
request-run = refl

read_request-create_ipc_request_example :
    read_request (create_ipc_request device).ipc_request ≡ device_settings device
read_request-create_ipc_request_example = read_request-create_ipc_request device device-IsOneLine

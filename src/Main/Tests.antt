-- ===== src/Main/Tests.antt =====
-- Runs of `main` on a configuration with one SOCKS5 proxy.
use model_lib.Base.{
  Bytes, equal, Result, if◌then◌else◌, true, false, none, List, [], ◌∷◌, ◌≡◌, inr, refl, codes, ok,
}
use model_lib.Base.Int.{pos}
use model_lib.Strings.{split}
use model_lib.Strconv.{atoi}
use model_lib.Net.{split_host_port}
use model_lib.Config.Types.{RoutineSpawner, socks5, tcp_server, Configuration}
use model_lib.Config.File.{new_device}
use model_lib.Main.{
  Options, Environment, lock, redirect_stdout, restrict_net, start_wireguard, spawn_routine,
  start_ping_ips, watch_signals, await_signal, bind_tcp, extract_port, rule_of, section_rules,
  info_rules, lock_network, run, go_on, configured, choose_config, with_options, main,
}
use model_lib.Main.Spawned.{spawned}
use model_lib.Main.Started.{Started}
use model_lib.Main.Flow.{Started-main}
use model_lib.Main.{executable_path}
use model_lib.Main.Process.{
  daemon_process, own_args, daemon_argv, Machine, environment, in_foreground,
}
use model_lib.Main.Daemon.{unlocked, silenced, daemon-main}
use model_lib.Main.Lock.{requests_of, lock_stage, perform, lock_error}
use model_lib.Main.Sealed.{Sealed}

abbrev proxy : RoutineSpawner
proxy = socks5 (record { bind_address = codes "127.0.0.1:1080"; username = []; password = [] })

abbrev server : RoutineSpawner
server = tcp_server (record { listen_port = pos 80; target = codes "localhost:8080" })

abbrev options : Options
options = record {
  config = codes "a.conf";
  silent = false;
  daemon = false;
  info = [];
  print_version = false;
  config_test = false;
}

abbrev configuration : Configuration
configuration = record {
  device = new_device;
  routines = proxy ∷ [];
  resolve = record { resolve_strategy = codes "auto" };
}

abbrev foreground : Environment
foreground = record {
  options = ok options;
  is_daemon_process = false;
  android = false;
  exe_path = codes "/bin/wireproxy";
  request_error = λ stage request. none;
  exists = λ path. false;
  default_config_paths = codes "/etc/wireproxy/wireproxy.conf" ∷ [];
  parse_config = λ path. ok configuration;
  restrict_error = none;
  start_daemon_error = none;
  start_wireguard_error = none;
}

main-run :
    main foreground
    ≡ watch_signals
      ∷ lock (codes "boot")
      ∷ lock (codes "read-config")
      ∷ restrict_net (bind_tcp 1080 ∷ [])
      ∷ redirect_stdout
      ∷ lock (codes "ready")
      ∷ start_wireguard new_device false
      ∷ spawn_routine proxy
      ∷ start_ping_ips
      ∷ await_signal
      ∷ []
unfolding main with_options choose_config configured lock_network info_rules section_rules rule_of
    extract_port split_host_port split atoi go_on run lock_error lock_stage requests_of perform
    equal
main-run = refl

Started-main_example : spawned (main foreground) ≡ proxy ∷ []
unfolding choose_config lock_network info_rules section_rules rule_of extract_port split_host_port
    split atoi lock_error lock_stage requests_of perform equal
Started-main_example = Started-main foreground (proxy ∷ []) (record {
  options = options;
  path = codes "a.conf";
  conf = configuration;
  parsed_options = refl;
  is_booted = refl;
  no_version = refl;
  chosen = refl;
  is_reading = inr refl;
  parsed = refl;
  no_test = refl;
  is_restricted = inr (bind_tcp 1080 ∷ [], refl, refl);
  runs_on = (inr refl, refl, refl);
  all = refl;
})

-- A parser that knows one flag.
abbrev flags : List Bytes → Options
flags [] = options
flags (flag ∷ args) = if equal flag (codes "-d") then record options { daemon = true } else options

abbrev parse : List Bytes → Result Options
parse [] = ok options
parse (name ∷ args) = ok (flags args)

abbrev machine : Machine
machine = record {
  parse = parse;
  executable = ok (codes "/usr/bin/wireproxy");
  home = codes "/root";
  android = false;
  request_error = λ stage request. none;
  exists = λ path. false;
  parse_config = λ path. ok configuration;
  restrict_error = none;
  start_daemon_error = none;
  start_wireguard_error = none;
}

abbrev wireproxy : Bytes
wireproxy = codes "wireproxy"

daemon-main_example :
    (spawned (main (environment machine (wireproxy ∷ codes "-d" ∷ []))) ≡ [])
    × (unlocked (
          main (
            environment machine (
              daemon_argv
                (executable_path machine.executable wireproxy)
                (own_args (wireproxy ∷ codes "-d" ∷ [])))))
        ≡ silenced
            (unlocked (main (in_foreground machine wireproxy (record options { daemon = true })))))
unfolding equal lock_error lock_stage requests_of perform
daemon-main_example =
    daemon-main machine wireproxy (codes "-d" ∷ []) (record options { daemon = true })
      (λ a b rest. refl) refl refl refl refl

daemon_spawns :
    spawned
      (main (environment machine (codes "/usr/bin/wireproxy" ∷ daemon_process ∷ codes "-d" ∷ [])))
    ≡ proxy ∷ []
unfolding main with_options choose_config configured lock_network info_rules section_rules rule_of
    extract_port split_host_port split atoi go_on run spawned own_args lock_error lock_stage
    requests_of perform equal
daemon_spawns = refl

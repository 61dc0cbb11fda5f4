-- ===== src/Main.antt =====
-- cmd/wireproxy/main.go: the rules for the network, and the order in which `main` goes about things.
pub mod Grounds
pub mod Network
pub mod Spawned
pub mod Started
pub mod Flow
pub mod Lock
pub mod Stages
pub mod Sealed
pub mod Process
pub mod Daemon
mod Tests
use model_lib.Base.{
  ℕ, ◌+◌, ◌-◌, ◌%◌, ◌^◌, Bool, true, false, not, Option, none, some, List, [], ◌∷◌, ◌++◌, map,
  if◌then◌else◌, ◌==◌, Bytes, codes, length, Error, message, wrapped, Result, ok, err, ◌>>=◌,
}
use model_lib.Base.Int.{ℤ, pos, negsuc}
use model_lib.Strconv.{atoi}
use model_lib.Net.{split_host_port}
use model_lib.Main.Lock.{Request, lock_error}
use model_lib.Config.Types.{
  TcpAddr, DeviceConfig, RoutineSpawner, tcp_client, stdio, tcp_server, socks5, http, udp_proxy,
  Configuration,
}

-- The conversion `uint16(port)`.
abbrev pub to_uint16 : ℤ → ℕ
to_uint16 (pos n) = n % 2 ^ 16
to_uint16 (negsuc n) = (2 ^ 16 - (n + 1) % 2 ^ 16) % 2 ^ 16

-- A panic is an error here: it ends the program.
abbrev no_port : Bytes → Error → Error
no_port addr e = wrapped (codes "failed to extract port from " ++ addr) e

abbrev pub or_panic {ℓ} : {A : Type ℓ} → Bytes → Result A → Result A
or_panic addr (ok a) = ok a
or_panic addr (err e) = err (no_port addr e)

unfoldable pub extract_port : Bytes → Result ℕ
extract_port addr = do
  parts ← or_panic addr (split_host_port addr)
  port ← or_panic addr (atoi parts.1)
  ok (to_uint16 port)

-- landlock.BindTCP and landlock.ConnectTCP
pub data Rule : Type 0 where
  bind_tcp connect_tcp : ℕ → Rule

-- The cases of the switch; other routines need no rule.
unfoldable pub rule_of : RoutineSpawner → Result (List Rule)
rule_of (tcp_server c) = do port ← extract_port c.target; ok (connect_tcp port ∷ [])
rule_of (http c) = do port ← extract_port c.bind_address; ok (bind_tcp port ∷ [])
rule_of (tcp_client c) = ok (connect_tcp (to_uint16 c.bind_address.port) ∷ [])
rule_of (socks5 c) = do port ← extract_port c.bind_address; ok (bind_tcp port ∷ [])
rule_of (stdio c) = ok []
rule_of (udp_proxy c) = ok []

-- The loop over the sections.
unfoldable pub section_rules : List RoutineSpawner → Result (List Rule)
section_rules [] = ok []
section_rules (r ∷ routines) = do
  first ← rule_of r
  others ← section_rules routines
  ok (first ++ others)

unfoldable pub info_rules : Bytes → Result (List Rule)
info_rules [] = ok []
info_rules (c ∷ addr) = do port ← extract_port (c ∷ addr); ok (bind_tcp port ∷ [])

-- The rules that the network is restricted to, `none` on Android.
unfoldable pub lock_network : Bool → List RoutineSpawner → Bytes → Result (Option (List Rule))
lock_network true routines info = ok none
lock_network false routines info = do
  first ← info_rules info
  others ← section_rules routines
  ok (some (first ++ others))

-- os.Executable, or the first argument.
abbrev pub executable_path : Result Bytes → Bytes → Bytes
executable_path (ok path) arg = path
executable_path (err e) arg = arg

abbrev pub default_config_paths : Bytes → List Bytes
default_config_paths home =
    codes "/etc/wireproxy/wireproxy.conf" ∷ (home ++ codes "/.config/wireproxy.conf") ∷ []

unfoldable pub config_file_path : (Bytes → Bool) → List Bytes → Option Bytes
config_file_path exists [] = none
config_file_path exists (path ∷ paths) =
    let rest = config_file_path exists paths in if exists path then some path else rest

pub record Options : Type 0 where
  pub config : Bytes
  pub silent : Bool
  pub daemon : Bool
  pub info : Bytes
  pub print_version : Bool
  pub config_test : Bool

-- What `main` finds: the parsed arguments, whether it is the daemon process, its own path, and what its
-- calls answer; `request_error` is the answer to a request of a stage of the sandbox.
pub record Environment : Type 0 where
  pub options : Result Options
  pub is_daemon_process : Bool
  pub android : Bool
  pub exe_path : Bytes
  pub request_error : Bytes → Request → Option Error
  pub exists : Bytes → Bool
  pub default_config_paths : List Bytes
  pub parse_config : Bytes → Result Configuration
  pub restrict_error : Option Error
  pub start_daemon_error : Option Error
  pub start_wireguard_error : Option Error

-- `lock` stands for a stage of the sandbox, which does nothing on Android. `silence_output` opens
-- /dev/null for os.Stdout and os.Stderr, and `redirect_stdout` makes os.Stdout standard error. `watch_signals` asks for SIGINT
-- and SIGQUIT, with the goroutine that cancels the context on the first of them, and `await_signal` waits
-- for that.
pub data Action : Type 0 where
  lock : Bytes → Action
  print_text : Bytes → Action
  print_error print_usage : Error → Action
  fatal : Error → Action
  restrict_net : List Rule → Action
  start_daemon : Action
  silence_output redirect_stdout : Action
  start_wireguard : DeviceConfig → Bool → Action
  spawn_routine : RoutineSpawner → Action
  start_ping_ips : Action
  serve_info : Bytes → Action
  watch_signals await_signal : Action

-- What comes behind a call that ends the program if it fails.
abbrev pub unless_failed : Option Error → List Action → List Action
unless_failed none acts = acts
unless_failed (some e) acts = fatal e ∷ []

abbrev pub lock_result : Environment → Bytes → Option Error
lock_result env stage = lock_error env.android env.exe_path (env.request_error stage) stage

abbrev pub locked : Environment → Bytes → List Action → List Action
locked env stage acts = lock stage ∷ unless_failed (lock_result env stage) acts

abbrev pub info_service : Bytes → List Action
info_service [] = []
info_service (c ∷ addr) = serve_info (c ∷ addr) ∷ []

-- Behind `lock("ready")`; the flag is `silent`.
unfoldable pub run : Environment → Options → Configuration → List Action
run env o conf =
    start_wireguard conf.device o.silent
    ∷ unless_failed env.start_wireguard_error (
        map spawn_routine conf.routines
        ++ (start_ping_ips ∷ (info_service o.info ++ await_signal ∷ [])))

abbrev pub daemon_result : Option Error → List Action
daemon_result none = []
daemon_result (some e) = print_error e ∷ []

-- Behind the restriction of the network: a process that was asked to be a daemon, and is not yet the
-- daemon process, starts it and ends.
unfoldable pub go_on : Environment → Options → Configuration → List Action
go_on env o conf =
    if env.is_daemon_process
    then silence_output ∷ redirect_stdout ∷ locked env (codes "ready") (run env o conf)
    else if o.daemon
    then start_daemon ∷ daemon_result env.start_daemon_error
    else redirect_stdout ∷ locked env (codes "ready") (run env o conf)

abbrev pub restricted :
    Environment → Options → Configuration → Result (Option (List Rule)) → List Action
restricted env o conf (err e) = fatal e ∷ []
restricted env o conf (ok none) = go_on env o conf
restricted env o conf (ok (some rules)) =
    restrict_net rules ∷ unless_failed env.restrict_error (go_on env o conf)

unfoldable pub configured : Environment → Options → Result Configuration → List Action
configured env o (err e) = fatal e ∷ []
configured env o (ok conf) =
    if o.config_test
    then print_text (codes "Config OK") ∷ []
    else restricted env o conf (lock_network env.android conf.routines o.info)

unfoldable pub choose_config : Environment → Options → Option Bytes
choose_config env o =
    if length o.config == 0
    then config_file_path env.exists env.default_config_paths
    else some o.config

abbrev pub with_path : Environment → Options → Option Bytes → List Action
with_path env o none = print_text (codes "configuration path is required") ∷ []
with_path env o (some path) =
    if o.daemon
    then configured env o (env.parse_config path)
    else locked env (codes "read-config") (configured env o (env.parse_config path))

unfoldable pub with_options : Environment → Result Options → List Action
with_options env (err e) = print_usage e ∷ []
with_options env (ok o) =
    if o.print_version
    then print_text (codes "wireproxy, version 1.0.16-dev") ∷ []
    else with_path env o (choose_config env o)

unfoldable pub main : Environment → List Action
main env =
    watch_signals
    ∷ locked env (codes "boot") (
        if env.is_daemon_process
        then locked env (codes "boot-daemon") (with_options env env.options)
        else with_options env env.options)

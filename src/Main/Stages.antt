-- ===== src/Main/Stages.antt =====
-- cmd/wireproxy/main.go: the stages that `main` locks before it starts the device and the routines.
use model_lib.Base.{
  Bool, true, false, if-holds, Option, none, some, List, [], ◌∷◌, ◌++◌, if◌then◌else◌, ◌≡◌, ◌≢◌,
  ◌⊎◌, refl, ap, inl, inr, Bytes, codes, Error, Result, ok, err,
}
use model_lib.Config.Types.{Configuration}
use model_lib.Main.{
  Rule, lock_network, Options, Environment, Action, lock, print_text, print_error, print_usage,
  fatal, restrict_net, start_daemon, silence_output, redirect_stdout, start_wireguard,
  spawn_routine, start_ping_ips, serve_info, watch_signals, await_signal, unless_failed,
  lock_result, locked, run, daemon_result, go_on, restricted, configured, choose_config, with_path,
  with_options, main,
}
use model_lib.Main.Spawned.{spawned}

-- The stages that are locked, in their order, up to where the device or a routine is started.
unfoldable pub stages : List Action → List Bytes
stages [] = []
stages (lock stage ∷ acts) = stage ∷ stages acts
stages (start_wireguard d silent ∷ acts) = []
stages (spawn_routine r ∷ acts) = []
stages (print_text text ∷ acts) = stages acts
stages (print_error e ∷ acts) = stages acts
stages (print_usage e ∷ acts) = stages acts
stages (fatal e ∷ acts) = stages acts
stages (restrict_net rules ∷ acts) = stages acts
stages (start_daemon ∷ acts) = stages acts
stages (silence_output ∷ acts) = stages acts
stages (redirect_stdout ∷ acts) = stages acts
stages (start_ping_ips ∷ acts) = stages acts
stages (serve_info addr ∷ acts) = stages acts
stages (watch_signals ∷ acts) = stages acts
stages (await_signal ∷ acts) = stages acts

-- The actions start no routine, or before they do their stages are these.
abbrev Locks : List Bytes → List Action → Type 0
Locks names acts = (spawned acts ≡ []) ⊎ (stages acts ≡ names)

Locks-unless :
    (r : Option Error) (names : List Bytes) (acts : List Action)
    → Locks names acts
    → Locks names (unless_failed r acts)
unfolding spawned
Locks-unless none names acts h = h
Locks-unless (some e) names acts h = inl refl

Locks-lock :
    (stage : Bytes) (names : List Bytes) (acts : List Action)
    → Locks names acts
    → Locks (stage ∷ names) (lock stage ∷ acts)
unfolding spawned stages
Locks-lock stage names acts (inl idle) = inl idle
Locks-lock stage names acts (inr same) = inr (ap (◌∷◌ stage) same)

Locks-locked :
    (env : Environment) (stage : Bytes) (names : List Bytes) (acts : List Action)
    → Locks names acts
    → Locks (stage ∷ names) (locked env stage acts)
Locks-locked env stage names acts h =
    let r = lock_result env stage in
    Locks-lock stage names (unless_failed r acts) (Locks-unless r names acts h)

abbrev pub ready_only : List Bytes
ready_only = codes "ready" ∷ []

daemon-Locks : (o : Option Error) → Locks ready_only (start_daemon ∷ daemon_result o)
unfolding spawned
daemon-Locks none = inl refl
daemon-Locks (some e) = inl refl

ready-Locks :
    (env : Environment) (o : Options) (conf : Configuration)
    → Locks ready_only (locked env (codes "ready") (run env o conf))
unfolding run stages
ready-Locks env o conf = Locks-locked env (codes "ready") [] (run env o conf) (inr refl)

-- The two redirections lock nothing.
redirect-Locks :
    (names : List Bytes) (acts : List Action)
    → Locks names acts
    → Locks names (redirect_stdout ∷ acts) × Locks names (silence_output ∷ redirect_stdout ∷ acts)
unfolding spawned stages
redirect-Locks names acts h = (h, h)

go_on-Locks :
    (env : Environment) (o : Options) (conf : Configuration) → Locks ready_only (go_on env o conf)
unfolding go_on
go_on-Locks env o conf =
    let runs =
      redirect-Locks ready_only (locked env (codes "ready") (run env o conf))
        (ready-Locks env o conf) in
    if-holds (Locks ready_only) env.is_daemon_process runs.1
      (if-holds (Locks ready_only) o.daemon (daemon-Locks env.start_daemon_error) runs.0)

restricted-Locks :
    (env : Environment) (o : Options) (conf : Configuration) (r : Result (Option (List Rule)))
    → Locks ready_only (restricted env o conf r)
unfolding spawned stages
restricted-Locks env o conf (err e) = inl refl
restricted-Locks env o conf (ok none) = go_on-Locks env o conf
restricted-Locks env o conf (ok (some rules)) =
    Locks-unless env.restrict_error ready_only (go_on env o conf) (go_on-Locks env o conf)

configured-Locks :
    (env : Environment) (o : Options) (r : Result Configuration)
    → Locks ready_only (configured env o r)
unfolding configured spawned
configured-Locks env o (err e) = inl refl
configured-Locks env o (ok conf) =
    if-holds (Locks ready_only) o.config_test (inl refl)
      (restricted-Locks env o conf (lock_network env.android conf.routines o.info))

-- The stages before the routines: those of a process that was asked to be a daemon lack one, and the daemon
-- process has one more.
abbrev pub read_config : Bool → List Bytes
read_config asked = if asked then [] else codes "read-config" ∷ []

abbrev pub boot_daemon : Bool → List Bytes
boot_daemon is_daemon = if is_daemon then codes "boot-daemon" ∷ [] else []

reading-Locks :
    (env : Environment) (asked : Bool) (acts : List Action)
    → Locks ready_only acts
    → Locks
        (read_config asked ++ ready_only)
        (if asked then acts else locked env (codes "read-config") acts)
reading-Locks env true acts h = h
reading-Locks env false acts h = Locks-locked env (codes "read-config") ready_only acts h

booting-Locks :
    (env : Environment) (is_daemon : Bool) (names : List Bytes) (acts : List Action)
    → Locks names acts
    → Locks
        (boot_daemon is_daemon ++ names)
        (if is_daemon then locked env (codes "boot-daemon") acts else acts)
booting-Locks env true names acts h = Locks-locked env (codes "boot-daemon") names acts h
booting-Locks env false names acts h = h

with_path-Locks :
    (env : Environment) (o : Options) (path : Option Bytes)
    → Locks (read_config o.daemon ++ ready_only) (with_path env o path)
unfolding spawned
with_path-Locks env o none = inl refl
with_path-Locks env o (some path) =
    reading-Locks env o.daemon (configured env o (env.parse_config path))
      (configured-Locks env o (env.parse_config path))

with_options-Locks :
    (env : Environment) (r : Result Options)
    → (asked : Bool) × Locks (read_config asked ++ ready_only) (with_options env r)
unfolding with_options spawned
with_options-Locks env (err e) = (true, inl refl)
with_options-Locks env (ok o) = (
  o.daemon,
  if-holds (Locks (read_config o.daemon ++ ready_only)) o.print_version (inl refl)
      (with_path-Locks env o (choose_config env o)),
)

main-Locks :
    (env : Environment)
    → (asked : Bool) × Locks
        (codes "boot" ∷ (boot_daemon env.is_daemon_process ++ (read_config asked ++ ready_only)))
        (main env)
unfolding main spawned stages
main-Locks env =
    let (asked, h) = with_options-Locks env env.options in
    let acts = with_options env env.options in
    let names = read_config asked ++ ready_only in
    let is_daemon = env.is_daemon_process in
    (
      asked,
      Locks-locked env (codes "boot") (boot_daemon is_daemon ++ names)
          (if is_daemon then locked env (codes "boot-daemon") acts else acts)
          (booting-Locks env is_daemon names acts h),
    )

-- What is locked before the device and the routines are started.
pub main-stages :
    (env : Environment)
    → spawned (main env) ≢ []
    → (asked : Bool) × (stages (main env)
        ≡ codes "boot" ∷ (boot_daemon env.is_daemon_process ++ (read_config asked ++ ready_only)))
main-stages env started =
    let (asked, h) = main-Locks env in
    (asked, elim h [ inl idle ↦ absurd (started idle) | inr names ↦ names ])

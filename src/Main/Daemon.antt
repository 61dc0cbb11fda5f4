-- ===== src/Main/Daemon.antt =====
-- cmd/wireproxy/main.go: what the daemon process does that the program starts of itself.
use model_lib.Base.{
  Bool, true, false, Option, none, some, List, [], ◌∷◌, if◌then◌else◌, equal, ◌≡◌, refl, sym, ap,
  ◌∙◌, inl, inr, Bytes, codes, Error, Result, ok, err, ok-injective,
}
use model_lib.Config.Types.{Configuration}
use model_lib.Main.{
  Rule, lock_network, Options, Environment, Action, lock, print_text, print_error, print_usage,
  fatal, restrict_net, start_daemon, silence_output, redirect_stdout, start_wireguard,
  spawn_routine, start_ping_ips, serve_info, watch_signals, await_signal, executable_path,
  unless_failed, lock_result, locked, run, go_on, restricted, configured, choose_config, with_path,
  with_options, main,
}
use model_lib.Main.Spawned.{spawned}
use model_lib.Main.Started.{boot_daemon-none}
use model_lib.Main.Flow.{main-Started}
use model_lib.Main.Process.{
  is_daemon_process, own_args, daemon_argv, Machine, environment, in_foreground,
}

-- What is done but the stages of the sandbox.
abbrev pub unlocked : List Action → List Action
unlocked [] = []
unlocked (lock stage ∷ acts) = unlocked acts
unlocked (print_text text ∷ acts) = print_text text ∷ unlocked acts
unlocked (print_error e ∷ acts) = print_error e ∷ unlocked acts
unlocked (print_usage e ∷ acts) = print_usage e ∷ unlocked acts
unlocked (fatal e ∷ acts) = fatal e ∷ unlocked acts
unlocked (restrict_net rules ∷ acts) = restrict_net rules ∷ unlocked acts
unlocked (start_daemon ∷ acts) = start_daemon ∷ unlocked acts
unlocked (silence_output ∷ acts) = silence_output ∷ unlocked acts
unlocked (redirect_stdout ∷ acts) = redirect_stdout ∷ unlocked acts
unlocked (start_wireguard d silent ∷ acts) = start_wireguard d silent ∷ unlocked acts
unlocked (spawn_routine r ∷ acts) = spawn_routine r ∷ unlocked acts
unlocked (start_ping_ips ∷ acts) = start_ping_ips ∷ unlocked acts
unlocked (serve_info addr ∷ acts) = serve_info addr ∷ unlocked acts
unlocked (watch_signals ∷ acts) = watch_signals ∷ unlocked acts
unlocked (await_signal ∷ acts) = await_signal ∷ unlocked acts

-- With the output silenced in front of where os.Stdout is redirected.
abbrev pub silenced : List Action → List Action
silenced [] = []
silenced (redirect_stdout ∷ acts) = silence_output ∷ redirect_stdout ∷ acts
silenced (act ∷ acts) = act ∷ silenced acts

-- The environment of the daemon process, and the one in the foreground.
abbrev as_daemon : Environment → Options → Environment
as_daemon env o = record env { options = ok o; is_daemon_process = true }

abbrev as_foreground : Environment → Options → Environment
as_foreground env o = record env {
  options = ok (record o { daemon = false });
  is_daemon_process = false;
}

-- The actions of the daemon process against those in the foreground.
abbrev Alike : List Action → List Action → Type 0
Alike acts others = unlocked acts ≡ silenced (unlocked others)

Alike-unless :
    (r : Option Error) (acts others : List Action)
    → Alike acts others
    → Alike (unless_failed r acts) (unless_failed r others)
Alike-unless none acts others h = h
Alike-unless (some e) acts others h = refl

Alike-if :
    (b : Bool) (acts others acts' others' : List Action)
    → Alike acts others
    → Alike acts' others'
    → Alike (if b then acts else acts') (if b then others else others')
Alike-if true acts others acts' others' h h' = h
Alike-if false acts others acts' others' h h' = h'

Alike-run :
    (env : Environment) (o : Options) (conf : Configuration)
    → Alike
        (go_on (as_daemon env o) o conf)
        (go_on (as_foreground env o) (record o { daemon = false }) conf)
unfolding go_on run
Alike-run env o conf = refl

Alike-restricted :
    (env : Environment) (o : Options) (conf : Configuration) (r : Result (Option (List Rule)))
    → Alike
        (restricted (as_daemon env o) o conf r)
        (restricted (as_foreground env o) (record o { daemon = false }) conf r)
Alike-restricted env o conf (err e) = refl
Alike-restricted env o conf (ok none) = Alike-run env o conf
Alike-restricted env o conf (ok (some rules)) =
    ap (λ l. restrict_net rules ∷ l)
      (Alike-unless env.restrict_error (go_on (as_daemon env o) o conf)
        (go_on (as_foreground env o) (record o { daemon = false }) conf) (Alike-run env o conf))

Alike-configured :
    (env : Environment) (o : Options) (r : Result Configuration)
    → Alike
        (configured (as_daemon env o) o r)
        (configured (as_foreground env o) (record o { daemon = false }) r)
unfolding configured
Alike-configured env o (err e) = refl
Alike-configured env o (ok conf) =
    let r = lock_network env.android conf.routines o.info in
    let tested = print_text (codes "Config OK") ∷ [] in
    Alike-if o.config_test tested tested (restricted (as_daemon env o) o conf r)
      (restricted (as_foreground env o) (record o { daemon = false }) conf r) refl
      (Alike-restricted env o conf r)

Alike-path :
    (env : Environment) (o : Options) (path : Option Bytes)
    → o.daemon ≡ true
    → lock_result env (codes "read-config") ≡ none
    → Alike
        (with_path (as_daemon env o) o path)
        (with_path (as_foreground env o) (record o { daemon = false }) path)
Alike-path env o none asked fine = refl
Alike-path env o (some path) asked fine =
    let r = env.parse_config path in
    let acts = configured (as_daemon env o) o r in
    let others = configured (as_foreground env o) (record o { daemon = false }) r in
    ap (λ b. unlocked (if b then acts else locked env (codes "read-config") acts)) asked
    ∙ Alike-configured env o r
    ∙ ap (λ r. silenced (unlocked (unless_failed r others))) (sym fine)

Alike-options :
    (env : Environment) (o : Options)
    → o.daemon ≡ true
    → lock_result env (codes "read-config") ≡ none
    → Alike
        (with_options (as_daemon env o) (ok o))
        (with_options (as_foreground env o) (ok (record o { daemon = false })))
unfolding with_options choose_config
Alike-options env o asked fine =
    let path = choose_config env o in
    let version = print_text (codes "wireproxy, version 1.0.16-dev") ∷ [] in
    Alike-if o.print_version version version (with_path (as_daemon env o) o path)
      (with_path (as_foreground env o) (record o { daemon = false }) path) refl
      (Alike-path env o path asked fine)

-- The daemon process is told by its first argument, and parses those of the process that started it.
daemon_argv-own :
    (exe_path name : Bytes) (args : List Bytes)
    → (is_daemon_process (daemon_argv exe_path (name ∷ args)) ≡ true)
      × (own_args (daemon_argv exe_path (name ∷ args)) ≡ exe_path ∷ args)
unfolding own_args equal
daemon_argv-own exe_path name args = (refl, refl)

own_args-foreground :
    (name : Bytes) (args : List Bytes)
    → is_daemon_process (name ∷ args) ≡ false
    → own_args (name ∷ args) ≡ name ∷ args
unfolding own_args
own_args-foreground name [] e = refl
own_args-foreground name (first ∷ args) e = rw e refl

-- A process that was asked to be a daemon starts no routine.
asked-idle :
    (env : Environment) (o : Options)
    → env.is_daemon_process ≡ false
    → env.options ≡ ok o
    → o.daemon ≡ true
    → spawned (main env) ≡ []
asked-idle env o first parsed asked = elim (main-Started env) [
  | inl idle ↦ idle
  | inr started ↦
      let same : started.options ≡ o = ok-injective (sym started.parsed_options ∙ parsed) in
      elim started.runs_on.0 [
        | inl is_daemon ↦ cc (sym first ∙ is_daemon)
        | inr stays ↦ cc (sym asked ∙ ap (λ (x : Options). x.daemon) (sym same) ∙ stays)
      ]
]

main-Alike :
    (env : Environment) (o : Options)
    → o.daemon ≡ true
    → lock_result env (codes "read-config") ≡ none
    → Alike (main (as_daemon env o)) (main (as_foreground env o))
unfolding main
main-Alike env o asked fine =
    let acts = with_options (as_daemon env o) (ok o) in
    let others = with_options (as_foreground env o) (ok (record o { daemon = false })) in
    ap (λ l. watch_signals ∷ l)
      (Alike-unless (lock_result env (codes "boot")) (locked env (codes "boot-daemon") acts) others
        (ap (λ r. unlocked (unless_failed r acts)) (boot_daemon-none env)
          ∙ Alike-options env o asked fine))

executable_path-twice :
    (r : Result Bytes) (name : Bytes)
    → executable_path r (executable_path r name) ≡ executable_path r name
executable_path-twice (ok path) name = refl
executable_path-twice (err e) name = refl

-- A process that reads its options, is asked to be a daemon, and is not the daemon process yet, starts no
-- routine. The process that it starts in its place is the daemon process, and does, but for the stages of
-- the sandbox, what the program would do in the foreground with the other options, and nothing else than to
-- open /dev/null for os.Stdout and os.Stderr, which it does in front of where os.Stdout is redirected. This
-- holds if the parser of the arguments passes over the name of the program, and the stage `read-config`,
-- which only the program in the foreground locks, is locked without an error there.
pub daemon-main :
    (m : Machine) (name : Bytes) (args : List Bytes) (o : Options)
    → ((a b : Bytes) (rest : List Bytes) → m.parse (a ∷ rest) ≡ m.parse (b ∷ rest))
    → is_daemon_process (name ∷ args) ≡ false
    → m.parse (name ∷ args) ≡ ok o
    → o.daemon ≡ true
    → lock_result (in_foreground m name o) (codes "read-config") ≡ none
    → (spawned (main (environment m (name ∷ args))) ≡ [])
      × (unlocked (
            main (
              environment m
                (daemon_argv (executable_path m.executable name) (own_args (name ∷ args)))))
          ≡ silenced (unlocked (main (in_foreground m name o))))
daemon-main m name args o names first parsed asked fine =
    let mine = own_args-foreground name args first in
    let exe_path = executable_path m.executable name in
    let told = daemon_argv-own exe_path name args in
    let started = as_daemon (environment m (name ∷ [])) o in
    (
      asked-idle (environment m (name ∷ args)) o first (ap m.parse mine ∙ parsed) asked,
      ap (λ argv. unlocked (main (environment m (daemon_argv exe_path argv)))) mine
          ∙ (λ i. unlocked (
              main (record started {
                options = (ap m.parse told.1 ∙ names exe_path name args ∙ parsed) i;
                is_daemon_process = told.0 i;
                exe_path = executable_path-twice m.executable name i;
              })))
          ∙ main-Alike (environment m (name ∷ [])) o asked fine,
    )

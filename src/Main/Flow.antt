-- ===== src/Main/Flow.antt =====
-- What `main` has done before it starts routines.
use model_lib.Base.{
  Bool, true, false, Bool-cases, Option, none, some, Option-cases, List, [], ◌∷◌, ◌++◌,
  if◌then◌else◌, ◌≡◌, ◌⊎◌, refl, subst, sym, ap, ◌∙◌, inl, inr, codes, Error, Result, ok, map,
}
use model_lib.Config.Types.{RoutineSpawner, Configuration}
use model_lib.Main.{
  Rule, lock_network, Options, Environment, Action, lock, spawn_routine, start_ping_ips,
  await_signal, info_service, unless_failed, lock_result, locked, run, go_on, restricted,
  configured, with_options, main,
}
use model_lib.Main.Spawned.{spawned, spawned-started, RunsOn, IsRestricted}
use model_lib.Main.Started.{IsReading, Started, boot_daemon-none, spawned-with_options}

-- What is done behind the stage `boot`.
abbrev behind_boot : Environment → Bool → Option Error → List Action
behind_boot env is_daemon r =
    if is_daemon
    then lock (codes "boot-daemon") ∷ unless_failed r (with_options env env.options)
    else with_options env env.options

spawned-behind :
    (env : Environment) (is_daemon : Bool) (r : Option Error)
    → r ≡ none
    → spawned (behind_boot env is_daemon r) ≡ spawned (with_options env env.options)
unfolding spawned
spawned-behind env true none e = refl
spawned-behind env true (some failure) e = cc
spawned-behind env false r e = refl

spawned-booted :
    (env : Environment)
    → lock_result env (codes "boot") ≡ none
    → spawned (main env) ≡ spawned (with_options env env.options)
unfolding main spawned
spawned-booted env booted =
    let daemon_stage = lock_result env (codes "boot-daemon") in
    ap (λ r. spawned (unless_failed r (behind_boot env env.is_daemon_process daemon_stage))) booted
    ∙ spawned-behind env env.is_daemon_process daemon_stage (boot_daemon-none env)

spawned-unbooted :
    (env : Environment) (e : Error)
    → lock_result env (codes "boot") ≡ some e
    → spawned (main env) ≡ []
unfolding main spawned
spawned-unbooted env e failed =
    let daemon_stage = lock_result env (codes "boot-daemon") in
    ap (λ r. spawned (unless_failed r (behind_boot env env.is_daemon_process daemon_stage))) failed

pub main-Started :
    (env : Environment) → (spawned (main env) ≡ []) ⊎ Started env (spawned (main env))
main-Started env = elim (Option-cases (lock_result env (codes "boot"))) [
  | inr (e, failed) ↦ inl (spawned-unbooted env e failed)
  | inl booted ↦ elim (spawned-with_options env env.options refl booted) [
    | inl idle ↦ inl (spawned-booted env booted ∙ idle)
    | inr started ↦ inr (subst (Started env) (sym (spawned-booted env booted)) started)
  ]
]

run-spawns :
    (env : Environment) (o : Options) (conf : Configuration)
    → env.start_wireguard_error ≡ none
    → spawned (run env o conf) ≡ conf.routines
unfolding run spawned
run-spawns env o conf started =
    let acts =
      map spawn_routine conf.routines
      ++ (start_ping_ips ∷ (info_service o.info ++ await_signal ∷ [])) in
    ap (λ r. spawned (unless_failed r acts)) started ∙ spawned-started conf o.info

ready-spawns :
    (env : Environment) (o : Options) (conf : Configuration)
    → lock_result env (codes "ready") ≡ none
    → env.start_wireguard_error ≡ none
    → spawned (unless_failed (lock_result env (codes "ready")) (run env o conf)) ≡ conf.routines
unfolding spawned
ready-spawns env o conf fine started =
    ap (λ r. spawned (unless_failed r (run env o conf))) fine ∙ run-spawns env o conf started

go_on-spawns :
    (env : Environment) (o : Options) (conf : Configuration)
    → RunsOn env o
    → spawned (go_on env o conf) ≡ conf.routines
unfolding go_on spawned
go_on-spawns env o conf (inl is_daemon, fine, started) =
    simp is_daemon (ready-spawns env o conf fine started)
go_on-spawns env o conf (inr stays, fine, started) = elim (Bool-cases env.is_daemon_process) [
  | inl is_daemon ↦ simp is_daemon (ready-spawns env o conf fine started)
  | inr not_yet ↦ simp (not_yet, stays) (ready-spawns env o conf fine started)
]

restricted-spawns :
    (env : Environment) (o : Options) (conf : Configuration) (r : Result (Option (List Rule)))
    → IsRestricted env r
    → RunsOn env o
    → spawned (restricted env o conf r) ≡ conf.routines
unfolding spawned
restricted-spawns env o conf r (inl same) on = rw same (go_on-spawns env o conf on)
restricted-spawns env o conf r (inr (rules, same, fine)) on =
    rw same
      (ap (λ r. spawned (unless_failed r (go_on env o conf))) fine ∙ go_on-spawns env o conf on)

configured-spawns :
    (env : Environment) (o : Options) (conf : Configuration)
    → o.config_test ≡ false
    → IsRestricted env (lock_network env.android conf.routines o.info)
    → RunsOn env o
    → spawned (configured env o (ok conf)) ≡ conf.routines
unfolding configured
configured-spawns env o conf real locked on =
    simp real
      (restricted-spawns env o conf (lock_network env.android conf.routines o.info) locked on)

reading-spawns :
    (env : Environment) (o : Options) (acts : List Action)
    → IsReading env o
    → spawned (if o.daemon then acts else locked env (codes "read-config") acts) ≡ spawned acts
unfolding spawned
reading-spawns env o acts (inl asked) = simp asked
reading-spawns env o acts (inr fine) = elim (Bool-cases o.daemon) [
  | inl asked ↦ simp asked
  | inr stays ↦ simp stays (ap (λ r. spawned (unless_failed r acts)) fine)
]

-- The other direction: if the stages of the sandbox are locked without an error, the options and the
-- configuration are read, no version and no test of the configuration is asked for, the restriction of the
-- network is asked for without an error (except on Android), the process is the daemon process or was not
-- asked to be a daemon, and the WireGuard device starts, then the routines of the configuration are started,
-- all and in order. The stages are `boot`, `read-config` (not if the process was asked to be a daemon) and
-- `ready`.
pub Started-main :
    (env : Environment) (routines : List RoutineSpawner)
    → Started env routines
    → spawned (main env) ≡ routines
unfolding spawned with_options
Started-main env routines s =
    spawned-booted env s.is_booted
    ∙ ap (λ r. spawned (with_options env r)) s.parsed_options
    ∙ simp (s.no_version, s.chosen)
        (reading-spawns env s.options (configured env s.options (env.parse_config s.path))
            s.is_reading
          ∙ ap (λ r. spawned (configured env s.options r)) s.parsed
          ∙ configured-spawns env s.options s.conf s.no_test s.is_restricted s.runs_on
          ∙ sym s.all)

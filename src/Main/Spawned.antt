-- ===== src/Main/Spawned.antt =====
-- cmd/wireproxy/main.go: the routines that a list of actions starts.
use model_lib.Base.{
  true, false, Bool-cases, Option, none, some, List, [], ◌∷◌, ◌++◌, append-nil, map, ◌≡◌, ◌⊎◌, refl,
  ap, ◌∙◌, arith, inl, inr, Bytes, codes, Error, Result, ok, err,
}
use model_lib.Config.Types.{RoutineSpawner, Configuration}
use model_lib.Main.{
  Rule, Options, Environment, Action, lock, print_text, print_error, print_usage, fatal,
  restrict_net, start_daemon, silence_output, redirect_stdout, start_wireguard, spawn_routine,
  start_ping_ips, serve_info, watch_signals, await_signal, info_service, unless_failed, lock_result,
  run, daemon_result, go_on, restricted,
}

-- The routines that are started, in order.
unfoldable pub spawned : List Action → List RoutineSpawner
spawned [] = []
spawned (spawn_routine r ∷ acts) = r ∷ spawned acts
spawned (lock stage ∷ acts) = spawned acts
spawned (print_text text ∷ acts) = spawned acts
spawned (print_error e ∷ acts) = spawned acts
spawned (print_usage e ∷ acts) = spawned acts
spawned (fatal e ∷ acts) = spawned acts
spawned (restrict_net rules ∷ acts) = spawned acts
spawned (start_daemon ∷ acts) = spawned acts
spawned (silence_output ∷ acts) = spawned acts
spawned (redirect_stdout ∷ acts) = spawned acts
spawned (start_wireguard d silent ∷ acts) = spawned acts
spawned (start_ping_ips ∷ acts) = spawned acts
spawned (serve_info addr ∷ acts) = spawned acts
spawned (watch_signals ∷ acts) = spawned acts
spawned (await_signal ∷ acts) = spawned acts

spawned-append : (a b : List Action) → spawned (a ++ b) ≡ spawned a ++ spawned b
unfolding spawned
spawned-append [] b = refl
spawned-append (act ∷ a) b = ground (arith, spawned-append a b)

spawned-map : (routines : List RoutineSpawner) → spawned (map spawn_routine routines) ≡ routines
unfolding spawned
spawned-map [] = refl
spawned-map (r ∷ routines) = ap (◌∷◌ r) (spawned-map routines)

spawned-info :
    (info : Bytes) → spawned (start_ping_ips ∷ info_service info ++ await_signal ∷ []) ≡ []
unfolding spawned
spawned-info [] = refl
spawned-info (c ∷ info) = refl

pub spawned-started :
    (conf : Configuration) (info : Bytes)
    → spawned (
        map spawn_routine conf.routines
        ++ (start_ping_ips ∷ info_service info ++ await_signal ∷ []))
      ≡ conf.routines
spawned-started conf info =
    spawned-append (map spawn_routine conf.routines)
      (start_ping_ips ∷ info_service info ++ await_signal ∷ [])
    ∙ (λ i. spawned-map conf.routines i ++ spawned-info info i)
    ∙ append-nil conf.routines

-- The actions start no routine, or those of the configuration, and then `cond` holds.
abbrev pub Spawns : Type 0 → Configuration → List Action → Type 0
Spawns cond conf acts = (spawned acts ≡ []) ⊎ (cond × (spawned acts ≡ conf.routines))

pub Spawns-unless :
    {cond : Type 0} (r : Option Error) (conf : Configuration) (acts : List Action)
    → Spawns cond conf acts
    → Spawns ((r ≡ none) × cond) conf (unless_failed r acts)
unfolding spawned
Spawns-unless none conf acts (inl idle) = inl idle
Spawns-unless none conf acts (inr (holds, all)) = inr ((refl, holds), all)
Spawns-unless (some e) conf acts h = inl refl

spawned-run :
    (env : Environment) (o : Options) (conf : Configuration)
    → Spawns (env.start_wireguard_error ≡ none) conf (run env o conf)
unfolding run spawned
spawned-run env o conf =
    elim (Spawns-unless env.start_wireguard_error conf
      (map spawn_routine conf.routines
        ++ (start_ping_ips ∷ (info_service o.info ++ await_signal ∷ [])))
      (inr (tt, spawned-started conf o.info))) [
        | inl idle ↦ inl idle
        | inr ((started, _), all) ↦ inr (started, all)
      ]

-- The process runs on: it is the daemon process, or was not asked to be a daemon, it locks the stage
-- `ready`, and its device starts.
abbrev pub RunsOn : Environment → Options → Type 0
RunsOn env o =
    ((env.is_daemon_process ≡ true) ⊎ (o.daemon ≡ false))
    × (lock_result env (codes "ready") ≡ none)
    × (env.start_wireguard_error ≡ none)

spawned-daemon : (o : Option Error) → spawned (start_daemon ∷ daemon_result o) ≡ []
unfolding spawned
spawned-daemon none = refl
spawned-daemon (some e) = refl

spawned-ready :
    (env : Environment) (o : Options) (conf : Configuration)
    → Spawns
        ((lock_result env (codes "ready") ≡ none) × (env.start_wireguard_error ≡ none))
        conf
        (unless_failed (lock_result env (codes "ready")) (run env o conf))
spawned-ready env o conf =
    Spawns-unless (lock_result env (codes "ready")) conf (run env o conf) (spawned-run env o conf)

spawned-go_on :
    (env : Environment) (o : Options) (conf : Configuration)
    → Spawns (RunsOn env o) conf (go_on env o conf)
unfolding go_on spawned
spawned-go_on env o conf = elim (Bool-cases env.is_daemon_process) [
  | inl is_daemon ↦ elim (spawned-ready env o conf) [
    | inl idle ↦ inl (simp is_daemon idle)
    | inr ((fine, starts), routines) ↦ inr ((inl is_daemon, fine, starts), simp is_daemon routines)
  ]
  | inr not_yet ↦ elim (Bool-cases o.daemon) [
    | inl asked ↦ inl (simp (not_yet, asked) (spawned-daemon env.start_daemon_error))
    | inr stays ↦ elim (spawned-ready env o conf) [
      | inl idle ↦ inl (simp (not_yet, stays) idle)
      | inr ((fine, starts), routines) ↦
          inr ((inr stays, fine, starts), simp (not_yet, stays) routines)
    ]
  ]
]

-- The network is restricted, except on Android.
abbrev pub IsRestricted : Environment → Result (Option (List Rule)) → Type 0
IsRestricted env r =
    (r ≡ ok none) ⊎ ((rules : List Rule) × (r ≡ ok (some rules)) × (env.restrict_error ≡ none))

pub spawned-restricted :
    (env : Environment) (o : Options) (conf : Configuration) (r : Result (Option (List Rule)))
    → Spawns (IsRestricted env r × RunsOn env o) conf (restricted env o conf r)
unfolding spawned
spawned-restricted env o conf (err e) = inl refl
spawned-restricted env o conf (ok none) = elim (spawned-go_on env o conf) [
  | inl idle ↦ inl idle
  | inr (on, routines) ↦ inr ((inl refl, on), routines)
]
spawned-restricted env o conf (ok (some rules)) =
    elim (Spawns-unless env.restrict_error conf (go_on env o conf) (spawned-go_on env o conf)) [
      | inl idle ↦ inl idle
      | inr ((fine, on), routines) ↦ inr ((inr (rules, refl, fine), on), routines)
    ]

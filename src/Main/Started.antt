-- ===== src/Main/Started.antt =====
-- What holds of a process that starts routines, up to where it reads its configuration.
use model_lib.Base.{
  Bool, true, false, Bool-cases, Option, none, some, Option-cases, List, [], ◌∷◌, if◌then◌else◌,
  ◌≡◌, ◌⊎◌, refl, ◌∙◌, inl, inr, Bytes, codes, Error, Result, ok, err, equal,
}
use model_lib.Config.Types.{RoutineSpawner, Configuration}
use model_lib.Main.{
  lock_network, Options, Environment, Action, lock, unless_failed, lock_result, locked, configured,
  choose_config, with_options,
}
use model_lib.Main.Lock.{requests_of, lock_stage, perform, lock_error}
use model_lib.Main.Spawned.{spawned, RunsOn, IsRestricted, spawned-restricted}

-- The stage `read-config` is locked without an error, or the process was asked to be a daemon.
abbrev pub IsReading : Environment → Options → Type 0
IsReading env o = (o.daemon ≡ true) ⊎ (lock_result env (codes "read-config") ≡ none)

-- What holds when routines are started.
pub record Started (env : Environment) (routines : List RoutineSpawner) : Type 0 where
  pub options : Options
  pub path : Bytes
  pub conf : Configuration
  pub parsed_options : env.options ≡ ok options
  pub is_booted : lock_result env (codes "boot") ≡ none
  pub no_version : options.print_version ≡ false
  pub chosen : choose_config env options ≡ some path
  pub is_reading : IsReading env options
  pub parsed : env.parse_config path ≡ ok conf
  pub no_test : options.config_test ≡ false
  pub is_restricted : IsRestricted env (lock_network env.android conf.routines options.info)
  pub runs_on : RunsOn env options
  pub all : routines ≡ conf.routines

spawned-configured :
    (env : Environment) (o : Options) (r : Result Configuration)
    → (spawned (configured env o r) ≡ [])
      ⊎ ((conf : Configuration) × (r ≡ ok conf)
          × (o.config_test ≡ false)
          × IsRestricted env (lock_network env.android conf.routines o.info)
          × RunsOn env o
          × (spawned (configured env o r) ≡ conf.routines))
unfolding configured spawned
spawned-configured env o (err e) = inl refl
spawned-configured env o (ok conf) = elim (Bool-cases o.config_test) [
  | inl test ↦ inl (simp test)
  | inr real ↦
      elim (spawned-restricted env o conf (lock_network env.android conf.routines o.info)) [
        | inl idle ↦ inl (simp real idle)
        | inr ((locked, on), routines) ↦ inr (conf, refl, real, locked, on, simp real routines)
      ]
]

-- The stage `boot-daemon` makes no request.
pub boot_daemon-none : (env : Environment) → lock_result env (codes "boot-daemon") ≡ none
unfolding lock_error lock_stage requests_of perform equal
boot_daemon-none env = elim (Bool-cases env.android) [
  | inl android ↦ simp android
  | inr other ↦ simp other
]

-- The routines are started only if the configuration is read.
abbrev ReadAt : Environment → Options → Bytes → List Action → Type 0
ReadAt env o path acts =
    (spawned acts ≡ [])
    ⊎ ((conf : Configuration) × (env.parse_config path ≡ ok conf)
        × (o.config_test ≡ false)
        × IsRestricted env (lock_network env.android conf.routines o.info)
        × RunsOn env o
        × IsReading env o
        × (spawned acts ≡ conf.routines))

spawned-reading :
    (env : Environment) (o : Options) (path : Bytes) (is_daemon : Bool) (r : Option Error)
    (acts : List Action)
    → o.daemon ≡ is_daemon
    → lock_result env (codes "read-config") ≡ r
    → (IsReading env o → ReadAt env o path acts)
    → ReadAt env o path
        (if is_daemon then acts else lock (codes "read-config") ∷ unless_failed r acts)
unfolding spawned
spawned-reading env o path true r acts asked e h = h (inl asked)
spawned-reading env o path false none acts asked e h = h (inr e)
spawned-reading env o path false (some failure) acts asked e h = inl refl

spawned-read :
    (env : Environment) (o : Options) (path : Bytes) (r : Result Configuration)
    → env.parse_config path ≡ r
    → IsReading env o
    → ReadAt env o path (configured env o r)
unfolding configured spawned
spawned-read env o path (err e) given reading = inl refl
spawned-read env o path (ok conf) given reading = elim (spawned-configured env o (ok conf)) [
  | inl idle ↦ inl idle
  | inr (found, same, real, locked, on, routines) ↦
      inr (found, given ∙ same, real, locked, on, reading, routines)
]

pub spawned-with_options :
    (env : Environment) (r : Result Options)
    → env.options ≡ r
    → lock_result env (codes "boot") ≡ none
    → (spawned (with_options env r) ≡ []) ⊎ Started env (spawned (with_options env r))
unfolding with_options spawned
spawned-with_options env (err e) given booted = inl refl
spawned-with_options env (ok o) given booted = elim (Bool-cases o.print_version) [
  | inl version ↦ inl (simp version)
  | inr no_version ↦ elim (Option-cases (choose_config env o)) [
    | inl missing ↦ inl (simp (no_version, missing))
    | inr (path, chosen) ↦
        elim (spawned-reading env o path o.daemon (lock_result env (codes "read-config"))
          (configured env o (env.parse_config path)) refl refl
          (spawned-read env o path (env.parse_config path) refl)) [
            | inl idle ↦ inl (simp (no_version, chosen) idle)
            | inr (conf, parsed, real, sealed, on, reading, routines) ↦ inr (record {
              options = o;
              path = path;
              conf = conf;
              parsed_options = given;
              is_booted = booted;
              no_version = no_version;
              chosen = chosen;
              is_reading = reading;
              parsed = parsed;
              no_test = real;
              is_restricted = sealed;
              runs_on = on;
              all = simp (no_version, chosen) routines;
            })
          ]
  ]
]

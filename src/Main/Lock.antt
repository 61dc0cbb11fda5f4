-- ===== src/Main/Lock.antt =====
-- cmd/wireproxy/main.go: `lock`, the stages of the sandbox, as what they ask of the system.
use model_lib.Base.{
  Bool, Option, none, some, List, [], ◌∷◌, if◌then◌else◌, Bytes, codes, equal, Error, message,
  Result, ok, err, ◌>>=◌, ◌++◌,
}

-- landlock.RODirs, landlock.ROFiles and landlock.RWFiles; a missing file is ignored.
pub data PathRule : Type 0 where
  ro_dirs ro_files rw_files : Bytes → PathRule

-- protect.Unveil, protect.Pledge, and RestrictPaths of landlock.V1.BestEffort.
pub data Request : Type 0 where
  unveil : Bytes → Bytes → Request
  pledge : Bytes → Request
  restrict_paths : List PathRule → Request

abbrev pub boot_rules : List PathRule
boot_rules = ro_dirs (codes "/") ∷ []

abbrev pub ready_rules : List PathRule
ready_rules =
    ro_files (codes "/etc/resolv.conf")
    ∷ ro_files (codes "/dev/fd")
    ∷ ro_files (codes "/dev/zero")
    ∷ ro_files (codes "/dev/urandom")
    ∷ ro_files (codes "/etc/localtime")
    ∷ ro_files (codes "/proc/self/stat")
    ∷ ro_files (codes "/proc/self/status")
    ∷ ro_files (codes "/usr/share/locale")
    ∷ ro_files (codes "/proc/self/cmdline")
    ∷ ro_files (codes "/usr/share/zoneinfo")
    ∷ ro_files (codes "/proc/sys/kernel/version")
    ∷ ro_files (codes "/proc/sys/kernel/ngroups_max")
    ∷ ro_files (codes "/proc/sys/kernel/cap_last_cap")
    ∷ ro_files (codes "/proc/sys/vm/overcommit_memory")
    ∷ rw_files (codes "/dev/log")
    ∷ rw_files (codes "/dev/null")
    ∷ rw_files (codes "/dev/full")
    ∷ rw_files (codes "/proc/self/fd")
    ∷ []

abbrev pub boot : Bytes → List Request
boot exe_path =
    unveil (codes "/") (codes "r")
    ∷ unveil exe_path (codes "x")
    ∷ pledge (codes "stdio rpath inet dns proc exec")
    ∷ restrict_paths boot_rules
    ∷ []

abbrev pub ready : List Request
ready = pledge (codes "stdio inet dns") ∷ restrict_paths ready_rules ∷ []

-- The switch on the stage; another stage is a panic. `exe_path` is what `executablePath` returns.
unfoldable pub requests_of : Bytes → Bytes → Result (List Request)
requests_of exe_path stage =
    if equal stage (codes "boot")
    then ok (boot exe_path)
    else if equal stage (codes "boot-daemon")
    then ok []
    else if equal stage (codes "read-config")
    then ok (pledge (codes "stdio rpath inet dns") ∷ [])
    else if equal stage (codes "ready")
    then ok ready
    else err (message (codes "invalid stage"))

unfoldable pub lock_stage : Bool → Bytes → Bytes → Result (List Request)
unfolding requests_of
lock_stage android exe_path stage = if android then ok [] else requests_of exe_path stage

-- Each request is made by `panicIfError`, so the first that fails ends the program.
unfoldable pub perform : (Request → Option Error) → List Request → Option Error
perform answer [] = none
perform answer (request ∷ requests) =
    let rest = perform answer requests in elim (answer request) [ none ↦ rest | some e ↦ some e ]

-- What `lock` ends the program with, if it does.
unfoldable pub lock_error : Bool → Bytes → (Request → Option Error) → Bytes → Option Error
unfolding lock_stage perform
lock_error android exe_path answer stage = elim (lock_stage android exe_path stage) [
  | ok requests ↦ perform answer requests
  | err e ↦ some e
]

-- The stages one after another.
unfoldable pub lock_stages : Bool → Bytes → List Bytes → Result (List Request)
lock_stages android exe_path [] = ok []
lock_stages android exe_path (stage ∷ stages) = do
  first ← lock_stage android exe_path stage
  rest ← lock_stages android exe_path stages
  ok (first ++ rest)

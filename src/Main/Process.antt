-- ===== src/Main/Process.antt =====
-- cmd/wireproxy/main.go: the arguments of the process, and those of the daemon process.
use model_lib.Base.{
  Bool, false, Option, List, [], ◌∷◌, if◌then◌else◌, equal, Bytes, codes, Error, Result, ok,
}
use model_lib.Config.Types.{Configuration}
use model_lib.Main.{Options, Environment, default_config_paths, executable_path}
use model_lib.Main.Lock.{Request}

abbrev pub daemon_process : Bytes
daemon_process = codes "daemon-process"

-- `len(os.Args) > 1 && os.Args[1] == daemonProcess`
abbrev pub is_daemon_process : List Bytes → Bool
is_daemon_process (name ∷ first ∷ args) = equal first daemon_process
is_daemon_process (name ∷ []) = false
is_daemon_process [] = false

-- The arguments that are parsed: those of the daemon process lack the one that it is told by.
unfoldable pub own_args : List Bytes → List Bytes
own_args (name ∷ first ∷ args) =
    if equal first daemon_process then name ∷ args else name ∷ first ∷ args
own_args argv = argv

-- `args[0] = daemonProcess`, and exec.Command puts the path in front. os.Args is never empty.
abbrev pub daemon_argv : Bytes → List Bytes → List Bytes
daemon_argv exe_path [] = exe_path ∷ []
daemon_argv exe_path (name ∷ args) = exe_path ∷ daemon_process ∷ args

abbrev pub program_name : List Bytes → Bytes
program_name [] = []
program_name (name ∷ args) = name

-- What a process is started with, and what its calls answer. `parse` is the parser of arguments.
pub record Machine : Type 0 where
  pub parse : List Bytes → Result Options
  pub executable : Result Bytes
  pub home : Bytes
  pub android : Bool
  pub request_error : Bytes → Request → Option Error
  pub exists : Bytes → Bool
  pub parse_config : Bytes → Result Configuration
  pub restrict_error : Option Error
  pub start_daemon_error : Option Error
  pub start_wireguard_error : Option Error

abbrev pub environment : Machine → List Bytes → Environment
environment m argv = record {
  options = m.parse (own_args argv);
  is_daemon_process = is_daemon_process argv;
  android = m.android;
  exe_path = executable_path m.executable (program_name argv);
  request_error = m.request_error;
  exists = m.exists;
  default_config_paths = default_config_paths m.home;
  parse_config = m.parse_config;
  restrict_error = m.restrict_error;
  start_daemon_error = m.start_daemon_error;
  start_wireguard_error = m.start_wireguard_error;
}

-- The same, without the option for a daemon.
abbrev pub in_foreground : Machine → Bytes → Options → Environment
in_foreground m name o = record (environment m (name ∷ [])) {
  options = ok (record o { daemon = false });
  is_daemon_process = false;
}

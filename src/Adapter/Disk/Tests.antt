-- ===== src/Adapter/Disk/Tests.antt =====
-- A run of `adapt` on a disk with one file.
use model_lib.Base.{none, some, [], ◌≡◌, inr, refl, equal, if◌then◌else◌, codes, message, ok, err}
use model_lib.Config.Types.{World}
use model_lib.Config.Sample.{world, configuration, parse_config-file}
use model_lib.Adapter.Disk.{
  FileState, Disk, Calls, adapt, check_size, publish, create_temp, read_file, deferred_remove,
  accepted, write_string,
}
use model_lib.Adapter.Disk.Laws.{adapt_unchanged, adapt_no_temp}
use model_lib.Adapter.Disk.Success.{Replaced, adapt-Replaced, Replaced-adapt}

-- No call fails.
abbrev calls : Calls
calls = record {
  read_file = none;
  create_temp = ok (codes "t");
  chmod_temp = none;
  write = none;
  written = [];
  close = none;
  rename = none;
  chmod_output = none;
  remove = none;
  not_found = message (codes "no such file");
}

abbrev source : FileState
source = record { content = codes "[Interface]\n[Socks5]\nA = b\n"; mode = 420 }

abbrev disk : Disk
disk path = if equal path (codes "in") then some source else none

abbrev environment : Disk → World
environment d = world

unnamed : disk (codes "t") ≡ none
unfolding equal
unnamed = refl

adapt-run : (adapt calls environment (codes "in") (codes "out") disk).1 ≡ ok tt
unfolding adapt read_file check_size create_temp publish deferred_remove accepted write_string equal
adapt-run = rw parse_config-file refl

adapt-Replaced_example :
    Replaced environment
      (codes "in")
      (codes "out")
      (codes "t")
      disk
      (adapt calls environment (codes "in") (codes "out") disk).0
adapt-Replaced_example =
    adapt-Replaced calls environment (codes "in") (codes "out") (codes "t") disk refl (λ e. cc)
      adapt-run

-- 30 bytes are an allowed size.
source_size : check_size source.content ≡ ok tt
unfolding check_size
source_size = refl

Replaced-adapt_example : (adapt calls environment (codes "in") (codes "out") disk).1 ≡ ok tt
unfolding equal
Replaced-adapt_example =
    Replaced-adapt calls environment (codes "in") (codes "out") (codes "t") disk refl (λ e. cc)
      source configuration refl refl source_size
      (record { chmod_temp = refl; write = refl; close = refl; rename = refl; chmod_output = refl })
      (parse_config-file (codes "t"))

-- The temporary file cannot be closed.
abbrev failing : Calls
failing = record calls { close = some (message (codes "no space left")) }

adapt-failing :
    (adapt failing environment (codes "in") (codes "out") disk).1
    ≡ err (message (codes "no space left"))
unfolding adapt read_file check_size create_temp publish deferred_remove write_string equal
adapt-failing = refl

adapt_unchanged_example :
    (adapt failing environment (codes "in") (codes "out") disk).0 (codes "out") ≡ disk (codes "out")
adapt_unchanged_example =
    adapt_unchanged failing environment (codes "in") (codes "out") (codes "t") disk refl unnamed
      (λ e. cc) (codes "out") (λ e. cc) (inr (message (codes "no space left"), adapt-failing, refl))

adapt_no_temp_example :
    (adapt failing environment (codes "in") (codes "out") disk).0 (codes "t") ≡ none
adapt_no_temp_example =
    adapt_no_temp failing environment (codes "in") (codes "out") (codes "t") disk refl unnamed
      (λ e. cc) refl

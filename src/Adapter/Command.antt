-- ===== src/Adapter/Command.antt =====
-- cmd/config-adapter/main.go: the command around `adapt`, with its exit status and what it prints.
use model_lib.Base.{ℕ, ◌||◌, ◌==◌, if◌then◌else◌, Bytes, length, Error, Result, ok, err}
use model_lib.Config.Types.{World}
use model_lib.Adapter.Disk.{Calls, Disk, adapt}

pub data Printed : Type 0 where
  both_required : Printed
  failed : Error → Printed
  path : Bytes → Printed

pub record Exit : Type 0 where
  pub status : ℕ
  pub printed : Printed
  pub disk : Disk

abbrev exit_of : Bytes → Disk × Result (Unit {0}) → Exit
exit_of output (d, err e) = record { status = 1; printed = failed e; disk = d }
exit_of output (d, ok _) = record { status = 0; printed = path output; disk = d }

-- The two flags are the paths.
pub main : Calls → (Disk → World) → Bytes → Bytes → Disk → Exit
main calls world input_path output_path d =
    if length input_path == 0 || length output_path == 0
    then record { status = 2; printed = both_required; disk = d }
    else exit_of output_path (adapt calls world input_path output_path d)

-- ===== src/Adapter/Disk/Laws.antt =====
-- cmd/config-adapter/main.go: the output and the other files after a run of `adapt`.
use model_lib.Base.{none, ◌≡◌, ◌≢◌, ◌⊎◌, arith, Bytes, equal_iff, Error, ok, err}
use model_lib.Config.Types.{World}
use model_lib.Adapter.Disk.{
  Disk, Calls, read_file, create_temp, set_mode, set_content, write_string, move, accepted, publish,
  deferred_remove, adapt,
}

module _ (calls : Calls) (world : Disk → World) (input output temp : Bytes) (d : Disk)
    (named : calls.create_temp ≡ ok temp) (fresh : d temp ≡ none) (apart : temp ≢ output) where
  -- Files other than the output and the temporary one are left alone, on every path. If `adapt` fails,
  -- so is the output, unless it is the last call that fails, the one that sets the mode of the output.
  pub adapt_unchanged :
      (p : Bytes)
      → p ≢ temp
      → (p ≢ output)
        ⊎ ((e : Error) × ((adapt calls world input output d).1 ≡ err e)
            × (calls.chmod_output ≡ none))
      → (adapt calls world input output d).0 p ≡ d p
  unfolding read_file create_temp set_mode set_content write_string move accepted publish
      deferred_remove adapt
  adapt_unchanged p ne_temp why = ground (
    arith,
    equal_iff temp p,
    equal_iff output p,
    equal_iff temp output,
    equal_iff temp temp,
    equal_iff output output,
  )

  -- The temporary file is gone at the end, on every path, if the call that removes it does not fail.
  pub adapt_no_temp : calls.remove ≡ none → (adapt calls world input output d).0 temp ≡ none
  unfolding read_file create_temp set_mode set_content write_string move accepted publish
      deferred_remove adapt
  adapt_no_temp removed =
      ground (arith, equal_iff temp output, equal_iff temp temp, equal_iff output output)

-- ===== src/Adapter/Disk/Success.antt =====
-- cmd/config-adapter/main.go: runs of `adapt` without an error.
use model_lib.Base.{
  none, some, ◌≡◌, ◌≢◌, sym, ap, ◌∙◌, arith, Bytes, equal_iff, Option-cases, Result-cases, ◌⊎◌, inl,
  inr, [], Error, Result, ok, err,
}
use model_lib.Config.Types.{World, Configuration}
use model_lib.Config.File.{parse_config}
use model_lib.Adapter.{with_local_socks}
use model_lib.Adapter.Disk.{
  FileState, Disk, put, Calls, owner_only, Exec, read_file, check_size, create_temp, set_mode,
  set_content, write_string, accepted, publish, deferred_remove, adapt,
}
use model_lib.Adapter.Disk.Changes.{
  set_mode-put, set_content-put, moved, accepted-ok, publish-steps,
}

-- What a run of `adapt` has done to the disk, when its result is `r`.
pub record Replaced (world : Disk → World) (input output temp : Bytes) (d d' : Disk) : Type 0 where
  pub source : FileState
  pub found : d input ≡ some source
  pub size : check_size source.content ≡ ok tt
  pub config : Configuration
  pub checked :
      parse_config
        (world (
          put d temp
            (some (record { content = with_local_socks source.content; mode = owner_only }))))
        temp
      ≡ ok config
  pub written :
      d' output ≡ some (record { content = with_local_socks source.content; mode = owner_only })

-- The calls behind the deferred one succeed.
pub record NoFailure (calls : Calls) : Type 0 where
  pub chmod_temp : calls.chmod_temp ≡ none
  pub write : calls.write ≡ none
  pub close : calls.close ≡ none
  pub rename : calls.rename ≡ none
  pub chmod_output : calls.chmod_output ≡ none

publish-ok :
    (calls : Calls) (world : Disk → World) (temp output prepared : Bytes) (d0 d1 d2 : Disk)
    (config : Configuration)
    → set_mode temp d0 ≡ d1
    → set_content temp prepared d1 ≡ d2
    → NoFailure calls
    → parse_config (world d2) temp ≡ ok config
    → (publish calls world temp output prepared d0).1 ≡ ok tt
unfolding publish write_string accepted
publish-ok calls world temp output prepared d0 d1 d2 config e1 e2 fine parsed =
    ground (arith, fine.chmod_temp, fine.write, fine.close, fine.rename, fine.chmod_output)

read_file-ok :
    (calls : Calls) (p : Bytes) (d : Disk) (source : FileState)
    → calls.read_file ≡ none
    → d p ≡ some source
    → read_file calls p d ≡ (d, ok source.content)
unfolding read_file
read_file-ok calls p d source ready found = ground arith

read_file-cases :
    (calls : Calls) (p : Bytes) (d : Disk)
    → ((e : Error) × (read_file calls p d ≡ (d, err e)))
      ⊎ ((source : FileState) × (d p ≡ some source)
          × (read_file calls p d ≡ (d, ok source.content)))
unfolding read_file
read_file-cases calls p d = elim (Option-cases calls.read_file) [
  | inr (e, failed) ↦ inl (e, rw failed)
  | inl ready ↦ elim (Option-cases (d p)) [
    | inl missing ↦ inl (calls.not_found, ground arith)
    | inr (source, found) ↦ inr (source, found, ground arith)
  ]
]

module _ (calls : Calls) (world : Disk → World) (input output temp : Bytes) (d : Disk)
    (named : calls.create_temp ≡ ok temp) (apart : temp ≢ output) where
  abbrev empty_temp : Disk
  empty_temp = put d temp (some (record { content = []; mode = owner_only }))

  -- The disk when the temporary file has been written.
  abbrev pub with_prepared : FileState → Disk
  with_prepared source =
      put d temp (some (record { content = with_local_socks source.content; mode = owner_only }))

  created :
      (d : Disk)
      → create_temp calls d
        ≡ (put d temp (some (record { content = []; mode = owner_only })), ok temp)
  unfolding create_temp
  created d = rw named

  -- A run whose source was read and has the right size goes on to the calls behind the deferred one.
  adapt-body :
      (text : Bytes)
      → read_file calls input d ≡ (d, ok text)
      → check_size text ≡ ok tt
      → adapt calls world input output d
        ≡ deferred_remove calls temp
            (publish calls world temp output (with_local_socks text))
            empty_temp
  unfolding adapt
  adapt-body text read sized = rw (read, sized, created)

  adapt-unread :
      (x : Error)
      → read_file calls input d ≡ (d, err x)
      → adapt calls world input output d ≡ (d, err x)
  unfolding adapt
  adapt-unread x failed = rw failed

  adapt-unsized :
      (text : Bytes) (x : Error)
      → read_file calls input d ≡ (d, ok text)
      → check_size text ≡ err x
      → adapt calls world input output d ≡ (d, err x)
  unfolding adapt
  adapt-unsized text x read failed = rw (read, failed)

  not_done :
      (x : Error)
      → adapt calls world input output d ≡ (d, err x)
      → (adapt calls world input output d).1 ≡ ok tt
      → ⊥
  not_done x stopped e = cc (e, ap (λ (r : Disk × Result (Unit {0})). r.1) stopped)

  removed-result :
      (body : Exec (Unit {0})) (d0 : Disk)
      → ((deferred_remove calls temp body d0).1 ≡ (body d0).1)
        × ((deferred_remove calls temp body d0).0 output ≡ (body d0).0 output)
  unfolding deferred_remove
  removed-result body d0 = ground (arith, equal_iff temp output)

  adapt-Replaced_from :
      (source : FileState)
      → d input ≡ some source
      → check_size source.content ≡ ok tt
      → (adapt calls world input output d
          ≡ deferred_remove calls temp
              (publish calls world temp output (with_local_socks source.content))
              empty_temp)
      → (adapt calls world input output d).1 ≡ ok tt
      → Replaced world input output temp d (adapt calls world input output d).0
  adapt-Replaced_from source found sized same e =
      let text = with_local_socks source.content in
      let body = publish calls world temp output text in
      let full = put d temp (some (record { content = text; mode = owner_only })) in
      let (result, left) = removed-result body empty_temp in
      let done : (body empty_temp).1 ≡ ok tt =
        sym result ∙ ap (λ (r : Disk × Result (Unit {0})). r.1) (sym same) ∙ e in
      let (passed, final) =
        publish-steps calls world temp output text empty_temp empty_temp full
          (set_mode-put d temp (record { content = []; mode = owner_only }))
          (set_content-put d temp text (record { content = []; mode = owner_only })) done in
      let (c, checked) = accepted-ok (parse_config (world full) temp) passed in
      record {
        source = source;
        found = found;
        size = sized;
        config = c;
        checked = checked;
        written =
            ap (λ (r : Disk × Result (Unit {0})). r.0 output) same
            ∙ left
            ∙ ap (λ (x : Disk). x output) final
            ∙ moved d temp output (record { content = text; mode = owner_only }) apart;
      }

  -- If `adapt` returns without an error, the source was there and of an allowed size, ParseConfig has
  -- accepted the temporary file that held the prepared text, and the output holds that text and can
  -- only be read and written by its owner.
  pub adapt-Replaced :
      (adapt calls world input output d).1 ≡ ok tt
      → Replaced world input output temp d (adapt calls world input output d).0
  adapt-Replaced e = elim (read_file-cases calls input d) [
    | inl (x, failed) ↦ absurd (not_done x (adapt-unread x failed) e)
    | inr (source, found, read) ↦ elim (Result-cases (check_size source.content)) [
      | inr (x, failed) ↦ absurd (not_done x (adapt-unsized source.content x read failed) e)
      | inl (_, sized) ↦
          adapt-Replaced_from source found sized (adapt-body source.content read sized) e
    ]
  ]

  -- The other direction: if the source is there and of an allowed size, no call fails, and ParseConfig
  -- accepts the temporary file with the prepared text, then `adapt` returns without an error.
  pub Replaced-adapt :
      (source : FileState) (config : Configuration)
      → calls.read_file ≡ none
      → d input ≡ some source
      → check_size source.content ≡ ok tt
      → NoFailure calls
      → parse_config (world (with_prepared source)) temp ≡ ok config
      → (adapt calls world input output d).1 ≡ ok tt
  Replaced-adapt source config ready found sized fine accepted_text =
      let text = with_local_socks source.content in
      let body = publish calls world temp output text in
      ap (λ (r : Disk × Result (Unit {0})). r.1)
        (adapt-body source.content (read_file-ok calls input d source ready found) sized)
      ∙ (removed-result body empty_temp).0
      ∙ publish-ok calls world temp output text empty_temp empty_temp (with_prepared source) config
          (set_mode-put d temp (record { content = []; mode = owner_only }))
          (set_content-put d temp text (record { content = []; mode = owner_only })) fine
          accepted_text

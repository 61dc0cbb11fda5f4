-- ===== src/Adapter/Disk/Changes.antt =====
-- cmd/config-adapter/main.go: what the calls of adapt leave on the disk.
use mathlib.Core.Path.{fun_ext}
use model_lib.Base.{
  true, Option, some, ◌≡◌, ◌≢◌, refl, arith, Bytes, equal, equal_iff, Result, ok, err,
}
use model_lib.Config.Types.{World, Configuration}
use model_lib.Config.File.{parse_config}
use model_lib.Adapter.Disk.{
  FileState, Disk, put, Calls, owner_only, set_mode, set_content, move, accepted, publish,
}

equal_refl : (p : Bytes) → equal p p ≡ true
equal_refl p = (equal_iff p p).1 refl

put_self : (d : Disk) (p : Bytes) (f : Option FileState) → put d p f p ≡ f
put_self d p f = rw equal_refl

put-put : (d : Disk) (p : Bytes) (f g : Option FileState) → put (put d p f) p g ≡ put d p g
put-put d p f g = fun_ext λ q. ground arith

pub set_mode-put :
    (d : Disk) (p : Bytes) (f : FileState)
    → set_mode p (put d p (some f)) ≡ put d p (some (record f { mode = owner_only }))
unfolding set_mode
set_mode-put d p f =
    rw (equal_refl p, set_mode) (put-put d p (some f) (some (record f { mode = owner_only })))

pub set_content-put :
    (d : Disk) (p content : Bytes) (f : FileState)
    → set_content p content (put d p (some f)) ≡ put d p (some (record f { content = content }))
unfolding set_content
set_content-put d p content f =
    rw (equal_refl p, set_content) (put-put d p (some f) (some (record f { content = content })))

-- A file that was moved and had its mode set.
pub moved :
    (d : Disk) (from to : Bytes) (f : FileState)
    → from ≢ to
    → set_mode to (move from to (put d from (some f))) to ≡ some (record f { mode = owner_only })
unfolding set_mode move
moved d from to f ne = ground (arith, equal_iff from to, equal_iff from from, equal_iff to to)

pub accepted-ok : (r : Result Configuration) → accepted r ≡ ok tt → (c : Configuration) × (r ≡ ok c)
unfolding accepted
accepted-ok (ok c) e = (c, refl)
accepted-ok (err x) e = cc

-- The calls behind the deferred one, over the disks that they leave.
pub publish-steps :
    (calls : Calls) (world : Disk → World) (temp output prepared : Bytes) (d0 d1 d2 : Disk)
    → set_mode temp d0 ≡ d1
    → set_content temp prepared d1 ≡ d2
    → (publish calls world temp output prepared d0).1 ≡ ok tt
    → (accepted (parse_config (world d2) temp) ≡ ok tt)
      × ((publish calls world temp output prepared d0).0 ≡ set_mode output (move temp output d2))
unfolding publish
publish-steps calls world temp output prepared d0 d1 d2 e1 e2 e = ground arith

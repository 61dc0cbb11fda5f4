-- ===== src/Main/Sealed.antt =====
-- cmd/wireproxy/main.go: which files the routines can reach, and what they have pledged.
use model_lib.Base.{
  Bool, true, false, not, ◌&&◌, ◌||◌, List, [], ◌∷◌, ◌++◌, if◌then◌else◌, ◌≡◌, Bytes, codes, equal,
}
use model_lib.Strings.{split}
use model_lib.Main.Lock.{
  PathRule, ro_dirs, ro_files, rw_files, Request, unveil, pledge, restrict_paths, boot, ready,
  ready_rules,
}
use model_lib.Main.Stages.{ready_only}

-- What landlock documents: a rule grants access to the files of its hierarchy, and a file can be opened
-- exactly if each restriction that was made has a rule that grants it. `covers` says whether a path lies
-- in the hierarchy of another.
pub data Access : Type 0 where
  reading writing : Access

abbrev grants : (Bytes → Bytes → Bool) → Access → Bytes → PathRule → Bool
grants covers reading file (ro_dirs path) = covers path file
grants covers writing file (ro_dirs path) = false
grants covers reading file (ro_files path) = covers path file
grants covers writing file (ro_files path) = false
grants covers access file (rw_files path) = covers path file

abbrev pub granted : (Bytes → Bytes → Bool) → Access → Bytes → List PathRule → Bool
granted covers access file [] = false
granted covers access file (rule ∷ rules) =
    grants covers access file rule || granted covers access file rules

-- `enforced` says whether the kernel has landlock: on one that has not, BestEffort lets RestrictPaths
-- restrict nothing, without an error.
abbrev pub accessible : Bool → (Bytes → Bytes → Bool) → Access → Bytes → List Request → Bool
accessible enforced covers access file [] = true
accessible enforced covers access file (restrict_paths rules ∷ requests) =
    (not enforced || granted covers access file rules)
    && accessible enforced covers access file requests
accessible enforced covers access file (unveil path flags ∷ requests) =
    accessible enforced covers access file requests
accessible enforced covers access file (pledge promises ∷ requests) =
    accessible enforced covers access file requests

-- What pledge(2) documents: a later call may only take promises away.
abbrev has_word : Bytes → List Bytes → Bool
has_word word [] = false
has_word word (w ∷ words) = equal w word || has_word word words

abbrev within : List Bytes → List Bytes → Bool
within [] words = true
within (word ∷ rest) words = has_word word words && within rest words

abbrev pub narrows : List Bytes → List Request → Bool
narrows words [] = true
narrows words (pledge promises ∷ requests) =
    within (split promises b' ') words && narrows (split promises b' ') requests
narrows words (unveil path flags ∷ requests) = narrows words requests
narrows words (restrict_paths rules ∷ requests) = narrows words requests

abbrev pub all_promises : List Bytes
all_promises = split (codes "stdio rpath inet dns proc exec") b' '

-- The requests seal the process off: where landlock is enforced, nothing can be opened for writing, and only
-- the files of the stage ready for reading; elsewhere, they restrict no file.
pub record Sealed (covers : Bytes → Bytes → Bool) (requests : List Request) : Type 0 where
  pub unwritable : (file : Bytes) → accessible true covers writing file requests ≡ false
  pub readable :
      (file : Bytes)
      → accessible true covers reading file requests ≡ granted covers reading file ready_rules
  pub unenforced :
      (access : Access) (file : Bytes) → accessible false covers access file requests ≡ true
  pub narrowing : narrows all_promises requests ≡ true

-- The requests of the stages that `main` locks, by what it locks.
abbrev pub requests : Bytes → Bool → List Request
requests exe_path asked =
    boot exe_path ++ ((if asked then [] else pledge (codes "stdio rpath inet dns") ∷ []) ++ ready)

-- The last stage is `ready`.
abbrev pub EndsReady : List Bytes → Type 0
EndsReady names = (before : List Bytes) × (names ≡ before ++ ready_only)

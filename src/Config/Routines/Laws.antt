-- ===== src/Config/Routines/Laws.antt =====
-- What the sections of one name become.
use model_lib.Base.{
  Option, none, some, List, [], ◌∷◌, ◌++◌, append_assoc, append-nil, ◌≡◌, sym, ap, ◌∙◌, Bytes,
  Result, bind-ok, ok, bind-eq-ok, ok-injective, EachOk, nil, cons,
}
use model_lib.Ini
use model_lib.Ini.{Section}
use model_lib.Config.Types.{RoutineSpawner}
use model_lib.Config.Routines.{append_routines, parse_routines_config}

-- The sections of a name, none if the name is not found.
abbrev pub sections_of : Ini.File → Bytes → List Section
sections_of cfg name = elim (cfg.sections_by_name name) [ none ↦ [] | some sections ↦ sections ]

append_routines_lem :
    (f : Section → Result RoutineSpawner) (sections : List Section) (routines : List RoutineSpawner)
    {all : List RoutineSpawner}
    → append_routines f sections routines ≡ ok all
    → (new : List RoutineSpawner) × (all ≡ routines ++ new) × EachOk f sections new
unfolding append_routines
append_routines_lem f [] routines e = ([], sym (ok-injective e) ∙ sym (append-nil routines), nil)
append_routines_lem f (s ∷ sections) routines e =
    let (r, parsed, e') = bind-eq-ok (f s) _ e in
    let (new, same, each) = append_routines_lem f sections (routines ++ r ∷ []) e' in
    (r ∷ new, same ∙ append_assoc routines (r ∷ []) new, cons parsed each)

pub parse_routines_config-EachOk :
    (routines : List RoutineSpawner) (cfg : Ini.File) (name : Bytes)
    (f : Section → Result RoutineSpawner) {all : List RoutineSpawner}
    → parse_routines_config routines cfg name f ≡ ok all
    → (new : List RoutineSpawner) × (all ≡ routines ++ new) × EachOk f (sections_of cfg name) new
unfolding parse_routines_config
parse_routines_config-EachOk routines cfg name f {all} e = go (cfg.sections_by_name name) e
  where
    go :
        (o : Option (List Section))
        → elim o [ none ↦ ok routines | some sections ↦ append_routines f sections routines ]
          ≡ ok all
        → (new : List RoutineSpawner) × (all ≡ routines ++ new)
          × EachOk f (elim o [ none ↦ [] | some sections ↦ sections ]) new
    go none e = ([], sym (ok-injective e) ∙ sym (append-nil routines), nil)
    go (some sections) e = append_routines_lem f sections routines e

EachOk-append_routines :
    (f : Section → Result RoutineSpawner) (routines : List RoutineSpawner) {sections : List Section}
    {new : List RoutineSpawner}
    → EachOk f sections new
    → append_routines f sections routines ≡ ok (routines ++ new)
unfolding append_routines
EachOk-append_routines f routines nil = ap ok (sym (append-nil routines))
EachOk-append_routines f routines (cons {b = r} {others = others} parsed more) = bind-ok _ parsed (
    EachOk-append_routines f (routines ++ r ∷ []) more
    ∙ ap ok (append_assoc routines (r ∷ []) others))

-- If each section of the name is accepted, the routines stand behind those that were there.
pub EachOk-parse_routines_config :
    (routines : List RoutineSpawner) (cfg : Ini.File) (name : Bytes)
    (f : Section → Result RoutineSpawner) {new : List RoutineSpawner}
    → EachOk f (sections_of cfg name) new
    → parse_routines_config routines cfg name f ≡ ok (routines ++ new)
unfolding parse_routines_config
EachOk-parse_routines_config routines cfg name f each = go (cfg.sections_by_name name) each
  where
    go :
        (o : Option (List Section)) {m : List RoutineSpawner}
        → EachOk f (elim o [ none ↦ [] | some sections ↦ sections ]) m
        → elim o [ none ↦ ok routines | some sections ↦ append_routines f sections routines ]
          ≡ ok (routines ++ m)
    go none nil = ap ok (sym (append-nil routines))
    go (some sections) each = EachOk-append_routines f routines each

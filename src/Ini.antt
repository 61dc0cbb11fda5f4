-- ===== src/Ini.antt =====
-- What the program sees of the third-party package `ini`: the answers of its methods. A file, a
-- section and a key are parameters of the definitions that read them.
pub mod Sample
use model_lib.Base.{List, [], ◌≡◌, Option, none, some, Bytes, Result}
use model_lib.Base.Int.{ℤ}
use model_lib.Strings.{to_lower}

-- `key.String()` and `key.Int()`
pub record Key : Type 0 where
  pub string : Bytes
  pub int : Result ℤ

-- `section.GetKey(name)`, whose error the program never looks at, and `section.Key(name)`, where
-- `none` stands for a nil key.
pub record Section : Type 0 where
  pub get_key : Bytes → Option Key
  pub key : Bytes → Option Key

-- `file.SectionsByName(name)`, `file.GetSection(name)` and `file.Section(name)`
pub record File : Type 0 where
  pub sections_by_name : Bytes → Option (List Section)
  pub get_section : Bytes → Option Section
  pub section : Bytes → Section

-- What the package documents of `Key`: it is the key that `GetKey` finds, under a name in any case,
-- or an empty key. It is never nil.
pub record KeyLaws (s : Section) : Type 0 where
  pub found : (name : Bytes) (k : Key) → s.get_key name ≡ some k → s.key name ≡ some k
  pub missing :
      (name : Bytes) → s.get_key name ≡ none → (k : Key) × (s.key name ≡ some k) × (k.string ≡ [])
  pub insensitive : (name : Bytes) → s.get_key (to_lower name) ≡ s.get_key name

-- ===== src/Ini/Sample.antt =====
-- Sections and files of the package `ini` given by lists, which meet what the package documents.
use model_lib.Base.{
  ℕ, ◌+◌, Option, none, some, List, [], ◌∷◌, ◌≡◌, refl, ap, arith, leb, ◌&&◌, if◌then◌else◌, Bytes,
  equal,
}
use model_lib.Strings.{to_lower}
use model_lib.Strconv.{atoi}
use model_lib.Ini.{Key, Section, File, KeyLaws}

-- A line of a section: the name of the key in lower case, and its value.
abbrev Entry : Type 0
Entry = Bytes × Bytes

unfoldable pub key_of : Bytes → Key
unfolding atoi
key_of value = record { string = value; int = atoi value }

unfoldable pub find_key : List Entry → Bytes → Option Key
unfolding key_of
find_key [] name = none
find_key ((key, value) ∷ entries) name =
    let rest = find_key entries name in
    if equal key (to_lower name) then some (key_of value) else rest

unfoldable pub key_or_empty : Option Key → Option Key
unfolding key_of
key_or_empty none = some (key_of [])
key_or_empty (some k) = some k

abbrev pub section_of : List Entry → Section
section_of entries = record {
  get_key = find_key entries;
  key = λ name. key_or_empty (find_key entries name);
}

lower_char-twice :
    (c : ℕ)
    → (let d = if leb b'A' c && leb c b'Z' then c + 32 else c in
        if leb b'A' d && leb d b'Z' then d + 32 else d)
      ≡ (if leb b'A' c && leb c b'Z' then c + 32 else c)
lower_char-twice c = ground arith

to_lower-twice : (s : Bytes) → to_lower (to_lower s) ≡ to_lower s
unfolding to_lower
to_lower-twice [] = refl
to_lower-twice (c ∷ s) = λ i. lower_char-twice c i ∷ to_lower-twice s i

find_key-to_lower :
    (entries : List Entry) (name : Bytes) → find_key entries (to_lower name) ≡ find_key entries name
unfolding find_key
find_key-to_lower [] name = refl
find_key-to_lower ((key, value) ∷ entries) name =
    rw (to_lower-twice name, find_key-to_lower entries name)

pub section_of-KeyLaws : (entries : List Entry) → KeyLaws (section_of entries)
unfolding key_or_empty
section_of-KeyLaws entries = record {
  found = λ name k e. ap key_or_empty e;
  missing = λ name e. (key_of [], ap key_or_empty e, unfold key_of in refl);
  insensitive = find_key-to_lower entries;
}

-- A file with the sections of each name.
unfoldable pub find_sections : List (Bytes × List Section) → Bytes → Option (List Section)
find_sections [] name = none
find_sections ((key, sections) ∷ more) name =
    let rest = find_sections more name in if equal key name then some sections else rest

unfoldable pub first_section : Option (List Section) → Option Section
first_section none = none
first_section (some []) = none
first_section (some (s ∷ sections)) = some s

unfoldable pub section_or_empty : Option Section → Section
section_or_empty none = section_of []
section_or_empty (some s) = s

abbrev pub file_of : List (Bytes × List Section) → File
file_of sections = record {
  sections_by_name = find_sections sections;
  get_section = λ name. first_section (find_sections sections name);
  section = λ name. section_or_empty (first_section (find_sections sections name));
}

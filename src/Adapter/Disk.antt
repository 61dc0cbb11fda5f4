-- ===== src/Adapter/Disk.antt =====
-- cmd/config-adapter/main.go: `adapt`, on a disk that is a function from paths to files. What the
-- system calls answer is a parameter.
pub mod Laws
pub mod Changes
pub mod Success
mod Tests
use model_lib.Base.{
  ℕ, ◌+◌, ◌*◌, Bool, true, false, Option, none, some, List, [], ◌∷◌, ltb, ◌==◌, if◌then◌else◌,
  Bytes, codes, equal, Error, message, wrapped, Result, ok, err,
}
use model_lib.Config.Types.{World, Configuration}
use model_lib.Config.File.{parse_config}
use model_lib.Adapter.{with_local_socks}

pub record FileState : Type 0 where
  pub content : Bytes
  pub mode : ℕ

abbrev pub Disk : Type 0
Disk = Bytes → Option FileState

abbrev pub put : Disk → Bytes → Option FileState → Disk
put d path file other = if equal path other then file else d other

-- The answers of the calls: the error of each that fails, the name of the temporary file, and the
-- part that a failing write has written.
pub record Calls : Type 0 where
  pub read_file : Option Error
  pub create_temp : Result Bytes
  pub chmod_temp : Option Error
  pub write : Option Error
  pub written : Bytes
  pub close : Option Error
  pub rename : Option Error
  pub chmod_output : Option Error
  pub remove : Option Error
  pub not_found : Error

-- A call that writes to the disk and may fail. What was written before an error stays written.
abbrev pub Exec : Type 0 → Type 0
Exec A = Disk → Disk × Result A

abbrev pub after : {A B : Type 0} → Disk → Result A → (A → Exec B) → Disk × Result B
after d (ok a) f = f a d
after d (err e) f = (d, err e)

infixl 5 ◌>>=◌ ◌>>◌
abbrev pub ◌>>=◌ : {A B : Type 0} → Exec A → (A → Exec B) → Exec B
◌>>=◌ m f d = let (d', r) = m d in after d' r f

abbrev pub ◌>>◌ : {B : Type 0} → Exec (Unit {0}) → Exec B → Exec B
m >> k = m >>= λ _. k

-- A call that changes the disk if it does not fail.
abbrev pub attempt : Option Error → (Disk → Disk) → Exec (Unit {0})
attempt none change d = (change d, ok tt)
attempt (some e) change d = (d, err e)

abbrev pub lift : {A : Type 0} → Result A → Exec A
lift r d = (d, r)

pub read_file : Calls → Bytes → Exec Bytes
read_file calls path d = elim calls.read_file [
  | some e ↦ (d, err e)
  | none ↦ elim (d path) [ none ↦ (d, err calls.not_found) | some file ↦ (d, ok file.content) ]
]

-- The bytes of a code point in UTF-8.
abbrev utf8_length : ℕ → ℕ
utf8_length c = if ltb c 0x80 then 1 else if ltb c 0x800 then 2 else if ltb c 0x10000 then 3 else 4

byte_length : Bytes → ℕ
byte_length [] = 0
byte_length (c ∷ s) = utf8_length c + byte_length s

abbrev pub max_config_bytes : ℕ
max_config_bytes = 1024 * 1024

pub check_size : Bytes → Result (Unit {0})
unfolding byte_length
check_size text =
    if byte_length text == 0
    then err (message (codes "source config is empty"))
    else if ltb max_config_bytes (byte_length text)
    then err (message (codes "source config exceeds 1 MiB"))
    else ok tt

-- 0o600
abbrev pub owner_only : ℕ
owner_only = 384

-- os.CreateTemp makes an empty file that only its owner can read.
create_temp : Calls → Exec Bytes
create_temp calls d = elim calls.create_temp [
  | err e ↦ (d, err e)
  | ok path ↦ (put d path (some (record { content = []; mode = owner_only })), ok path)
]

pub set_mode : Bytes → Disk → Disk
set_mode path d = elim (d path) [
  | none ↦ d
  | some file ↦ put d path (some (record file { mode = owner_only }))
]

pub set_content : Bytes → Bytes → Disk → Disk
set_content path content d = elim (d path) [
  | none ↦ d
  | some file ↦ put d path (some (record file { content = content }))
]

write_string : Calls → Bytes → Bytes → Exec (Unit {0})
write_string calls path content d = elim calls.write [
  | none ↦ (set_content path content d, ok tt)
  | some e ↦ (set_content path calls.written d, err e)
]

pub move : Bytes → Bytes → Disk → Disk
move from to d = put (put d to (d from)) from none

pub accepted : Result Configuration → Result (Unit {0})
accepted (ok c) = ok tt
accepted (err e) = err (wrapped (codes "wireproxy rejected prepared config") e)

-- What stands behind `defer os.Remove(tempPath)`. Closing the file changes nothing here.
pub publish : Calls → (Disk → World) → Bytes → Bytes → Bytes → Exec (Unit {0})
unfolding write_string
publish calls world temp output prepared = do
  attempt calls.chmod_temp (set_mode temp)
  write_string calls temp prepared
  attempt calls.close (λ d. d)
  λ d. (d, accepted (parse_config (world d) temp))
  attempt calls.rename (move temp output)
  attempt calls.chmod_output (set_mode output)

-- The deferred call, whose result is dropped.
deferred_remove : Calls → Bytes → Exec (Unit {0}) → Exec (Unit {0})
deferred_remove calls temp body d =
    let (d', r) = body d in elim calls.remove [ none ↦ (put d' temp none, r) | some e ↦ (d', r) ]

pub adapt : Calls → (Disk → World) → Bytes → Bytes → Exec (Unit {0})
adapt calls world input output = do
  text ← read_file calls input
  lift (check_size text)
  temp ← create_temp calls
  deferred_remove calls temp (publish calls world temp output (with_local_socks text))

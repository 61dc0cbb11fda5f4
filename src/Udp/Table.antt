-- ===== src/Udp/Table.antt =====
-- What stands in a table of sessions.
use model_lib.Base.{ℕ, none, some, [], ◌∷◌, ◌≡◌, ◌≢◌, ◌↔◌, ◌⊎◌, arith, Bytes, equal_iff}
use model_lib.Udp.{Table, find, delete}

-- The pair stands in the table.
abbrev pub In : Bytes → ℕ → Table → Type 0
In src id [] = ⊥
In src id ((key, i) ∷ table) = ((key ≡ src) × (i ≡ id)) ⊎ In src id table

abbrev pub Unique : Table → Type 0
Unique table = (src : Bytes) (i j : ℕ) → In src i table → In src j table → i ≡ j

pub find-In : (table : Table) (src : Bytes) (id : ℕ) → find table src ≡ some id → In src id table
unfolding find
find-In [] src id e = cc
find-In ((key, i) ∷ table) src id e = ground (arith, equal_iff key src, find-In table src id)

pub find-none : (table : Table) (src : Bytes) (id : ℕ) → find table src ≡ none → In src id table → ⊥
unfolding find
find-none [] src id e h = absurd h
find-none ((key, i) ∷ table) src id e h = ground (arith, equal_iff key src, find-none table src id)

pub In-delete :
    (table : Table) (src key : Bytes) (id : ℕ)
    → In key id (delete table src) ↔ (In key id table × (key ≢ src))
unfolding delete
In-delete [] src key id = ((λ h. absurd h), λ h. h.0)
In-delete ((k, i) ∷ table) src key id = ground (arith, equal_iff k src, In-delete table src key id)

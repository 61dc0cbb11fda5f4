-- ===== src/Routine/Records.antt =====
-- routine.go: the records of the pings, and the status that is made of them.
use model_lib.Base.{
  ℕ, false, Bool-cases, List, [], ◌∷◌, ◌≡◌, ◌⊎◌, refl, arith, inl, inr, Bytes, equal, equal_iff,
  subst,
}
use model_lib.Base.Int.{ℤ}
use model_lib.Config.Types.{Addr}
use model_lib.Routine.{PingRecord, put_record, start_ping_ips, is_stale, ready_status}

-- The pair stands in the list.
abbrev pub Has : Bytes → ℕ → List (Bytes × ℕ) → Type 0
Has addr time [] = ⊥
Has addr time ((key, t) ∷ records) = ((key ≡ addr) × (t ≡ time)) ⊎ Has addr time records

abbrev pub Listed : Addr → List Addr → Type 0
Listed addr [] = ⊥
Listed addr (a ∷ addrs) = (a ≡ addr) ⊎ Listed addr addrs

pub ready_status-recent :
    (interval : ℤ) (now : ℕ) (records : PingRecord) (addr : Bytes) (time : ℕ)
    → ready_status interval now records ≡ 200
    → Has addr time records
    → is_stale interval now time ≡ false
unfolding ready_status
ready_status-recent interval now [] addr time e h = absurd h
ready_status-recent interval now ((key, t) ∷ records) addr time e h =
    elim (Bool-cases (is_stale interval now t)) [
      | inl stale ↦ absurd (ground (arith, rw stale at e))
      | inr recent ↦ elim h [
        | inl (_, same) ↦ subst (λ u. is_stale interval now u ≡ false) same recent
        | inr more ↦ ready_status-recent interval now records addr time (rw recent at e) more
      ]
    ]

-- A record that is put is there, under its address.
pub put-Has :
    (addr : Bytes) (time : ℕ) (records : PingRecord) → Has addr time (put_record addr time records)
unfolding put_record
put-Has addr time [] = inl (refl, refl)
put-Has addr time ((key, old) ∷ records) =
    ground (arith, equal_iff key addr, put-Has addr time records)

-- Each record is an old one or the new one.
pub Has-put :
    (addr other : Bytes) (time t : ℕ) (records : PingRecord)
    → Has other t (put_record addr time records)
    → ((other ≡ addr) × (t ≡ time)) ⊎ Has other t records
unfolding put_record
Has-put addr other time t [] h = ground (arith, h)
Has-put addr other time t ((key, old) ∷ records) h =
    ground (arith, equal_iff key addr, Has-put addr other time t records)

-- No address is lost.
pub put-keeps :
    (addr other : Bytes) (time t : ℕ) (records : PingRecord)
    → Has other t records
    → (u : ℕ) × Has other u (put_record addr time records)
unfolding put_record
put-keeps addr other time t [] h = absurd h
put-keeps addr other time t ((key, old) ∷ records) h = elim (Bool-cases (equal key addr)) [
  | inl here ↦
      rw here (elim h [ inl (same, _) ↦ (time, inl (same, refl)) | inr more ↦ (t, inr more) ])
  | inr other_key ↦ rw other_key (elim h [
    | inl (same, _) ↦ (old, inl (same, refl))
    | inr more ↦ let (u, kept) = put-keeps addr other time t records more in (u, inr kept)
  ])
]

start-keeps :
    (addrs : List Addr) (records : PingRecord) (other : Bytes) (t : ℕ)
    → Has other t records
    → (u : ℕ) × Has other u (start_ping_ips addrs records)
unfolding start_ping_ips
start-keeps [] records other t h = (t, h)
start-keeps (addr ∷ addrs) records other t h =
    let (u, kept) = put-keeps addr.string other 0 t records h in
    start-keeps addrs (put_record addr.string 0 records) other u kept

pub start-Has :
    (addrs : List Addr) (records : PingRecord) (addr : Addr)
    → Listed addr addrs
    → (u : ℕ) × Has addr.string u (start_ping_ips addrs records)
unfolding start_ping_ips
start-Has [] records addr h = absurd h
start-Has (a ∷ addrs) records addr (inl same) =
    start-keeps addrs (put_record a.string 0 records) addr.string 0 (
      subst (λ (x : Addr). Has x.string 0 (put_record a.string 0 records)) same
        (put-Has a.string 0 records))
start-Has (a ∷ addrs) records addr (inr more) =
    start-Has addrs (put_record a.string 0 records) addr more

pub Has-start :
    (addrs : List Addr) (records : PingRecord) (other : Bytes) (t : ℕ)
    → Has other t (start_ping_ips addrs records)
    → (t ≡ 0) ⊎ Has other t records
unfolding start_ping_ips
Has-start [] records other t h = inr h
Has-start (addr ∷ addrs) records other t h =
    elim (Has-start addrs (put_record addr.string 0 records) other t h) [
      | inl zero_ ↦ inl zero_
      | inr old ↦ elim (Has-put addr.string other 0 t records old) [
        | inl new ↦ inl new.1
        | inr older ↦ inr older
      ]
    ]

-- ===== src/Routine/Pings/Answered.antt =====
-- routine.go: a record of PingRecord that is not zero stands for a reply to a ping.
use model_lib.Base.{
  ℕ, zero, suc, some, List, [], ◌∷◌, ◌++◌, ◌≡◌, ◌⊎◌, refl, inl, inr, Bytes, Result, ok, err,
}
use model_lib.Config.Types.{Addr}
use model_lib.Routine.{PingRecord, put_record}
use model_lib.Routine.Records.{Has, Listed, start-Has, Has-start}
use model_lib.Routine.Pings.{
  Body, Ping, ping_ips, Verdict, accepted, refused, panics, check_reply, State, started, Event,
  round, reply, waiting_at, remove_at, take_verdict, take_reply, step,
}
use model_lib.Routine.Pings.Matches.{Matches, check_reply-Matches}

abbrev pub IsIn : Ping → List Ping → Type 0
IsIn ping [] = ⊥
IsIn ping (p ∷ pings) = (p ≡ ping) ⊎ IsIn ping pings

-- The states that are reached, with the events up to there, the last one first.
pub data Reachable (addrs : List Addr) : List Event → State → Type 0 where
  start : Reachable addrs [] (started addrs)
  after :
      {history : List Event} {s s' : State} (event : Event)
      → Reachable addrs history s
      → step addrs event s ≡ some s'
      → Reachable addrs (event ∷ history) s'

-- The ping was sent in some round.
abbrev pub Sent : List Addr → Ping → List Event → Type 0
Sent addrs ping [] = ⊥
Sent addrs ping (round probes ∷ history) =
    IsIn ping (ping_ips probes 0 addrs) ⊎ Sent addrs ping history
Sent addrs ping (reply place result time ∷ history) = Sent addrs ping history

-- At that time, the goroutine of a ping to the address took a reply that matches what the ping had sent.
pub data Answered (addrs : List Addr) (key : Bytes) (time : ℕ) : List Event → Type 0 where
  now :
      {history : List Event} {event : Event} {s : State} (place : ℕ) (ping : Ping) (body : Body)
      → Reachable addrs history s
      → waiting_at place s.waiting ≡ some ping
      → Sent addrs ping history
      → ping.addr.string ≡ key
      → Matches ping.addr ping.request body
      → event ≡ reply place (ok body) time
      → Answered addrs key time (event ∷ history)
  earlier :
      {history : List Event} (event : Event)
      → Answered addrs key time history
      → Answered addrs key time (event ∷ history)

pub IsIn-append : (ping : Ping) (a b : List Ping) → IsIn ping (a ++ b) → IsIn ping a ⊎ IsIn ping b
IsIn-append ping [] b h = inr h
IsIn-append ping (p ∷ a) b (inl same) = inl (inl same)
IsIn-append ping (p ∷ a) b (inr more) = elim (IsIn-append ping a b more) [
  | inl x ↦ inl (inr x)
  | inr y ↦ inr y
]

pub IsIn-waiting_at :
    (place : ℕ) (pings : List Ping) (ping : Ping)
    → waiting_at place pings ≡ some ping
    → IsIn ping pings
unfolding waiting_at
IsIn-waiting_at place [] ping e = cc
IsIn-waiting_at zero (p ∷ pings) ping e = inl (cc)
IsIn-waiting_at (suc place) (p ∷ pings) ping e = inr (IsIn-waiting_at place pings ping e)

pub IsIn-remove_at :
    (place : ℕ) (pings : List Ping) (ping : Ping)
    → IsIn ping (remove_at place pings)
    → IsIn ping pings
unfolding remove_at
IsIn-remove_at place [] ping h = h
IsIn-remove_at zero (p ∷ pings) ping h = inr h
IsIn-remove_at (suc place) (p ∷ pings) ping (inl same) = inl same
IsIn-remove_at (suc place) (p ∷ pings) ping (inr more) = inr (IsIn-remove_at place pings ping more)

-- What holds of a state after a history.
pub record IsValid (addrs : List Addr) (history : List Event) (s : State) : Type 0 where
  pub sent : (ping : Ping) → IsIn ping s.waiting → Sent addrs ping history
  pub recorded :
      (key : Bytes) (t : ℕ) → Has key t s.records → (t ≡ 0) ⊎ Answered addrs key t history
  pub kept : (addr : Addr) → Listed addr addrs → (u : ℕ) × Has addr.string u s.records

pub IsValid-started : (addrs : List Addr) → IsValid addrs [] (started addrs)
IsValid-started addrs = record {
  sent = λ ping h. absurd h;
  recorded = λ key t h. elim (Has-start addrs [] key t h) [ inl e ↦ inl e | inr no_ ↦ absurd no_ ];
  kept = λ addr listed. start-Has addrs [] addr listed;
}

-- What becomes of the records when a reply is taken.
pub take_reply-cases :
    (result : Result Body) (ping : Ping) (time : ℕ) (records records' : PingRecord)
    → take_reply result ping time records ≡ some records'
    → (records' ≡ records)
      ⊎ ((body : Body) × (result ≡ ok body)
          × Matches ping.addr ping.request body
          × (records' ≡ put_record ping.addr.string time records))
unfolding take_reply take_verdict
take_reply-cases (err e) ping time records records' h = inl (cc)
take_reply-cases (ok body) ping time records records' h = by_verdict (check_reply ping body) refl h
  where
    by_verdict :
        (v : Verdict)
        → check_reply ping body ≡ v
        → take_verdict v ping time records ≡ some records'
        → (records' ≡ records)
          ⊎ ((b : Body) × (ok body ≡ ok b)
              × Matches ping.addr ping.request b
              × (records' ≡ put_record ping.addr.string time records))
    by_verdict accepted v e = inr (body, refl, check_reply-Matches ping body v, cc)
    by_verdict refused v e = inl (cc)
    by_verdict panics v e = cc

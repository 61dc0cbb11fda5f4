-- ===== src/Udp/Reach.antt =====
-- udp_proxy.go: the sessions after any sequence of turns.
use model_lib.Base.{
  ℕ, ◌+◌, ◌<◌, true, false, Bool-cases, Option, none, some, Option-cases, ◌≡◌, ◌≢◌, ◌↔◌, inl, inr,
  refl, sym, ap, ◌∙◌, arith, Bytes, Error, subst,
}
use model_lib.Udp.{
  Reader, at_top, in_read, holding, State, TunnelSettings, find, modify, touch, hold,
  get_or_create_session, receive, tick, go_to, finish, check_closed, ReadOutcome, timed_out, failed,
  received, pass_on, read,
}
use model_lib.Udp.Table.{In, find-In}
use model_lib.Udp.Sweep.{In-sweep, sweep-closes}
use model_lib.Udp.Steps.{
  Step, client_packet, client_forward, cleanup, reader_check, reader_read, Reachable, start, after,
}
use model_lib.Udp.Invariant.{
  running, touched, get_or_create-none, IsValid, IsValid-Same, Same-modify, IsValid-initial,
  IsValid-receive, IsValid-forward, IsValid-tick,
}
use model_lib.Udp.Finish.{finish-Finished, IsValid-Finished}

IsValid-finish : (id : ℕ) (s : State) → IsValid s → IsValid (finish id s)
IsValid-finish id s v = IsValid-Finished id s (finish id s) v (finish-Finished id s v)

-- The goroutine goes on to another place of its loop.
IsValid-go_to :
    (id : ℕ) (place : Reader) (s : State)
    → running (s.heap id).reader ≡ true
    → running place ≡ true
    → IsValid s
    → IsValid (record s { heap = modify id (go_to place) s.heap })
IsValid-go_to id place s alive going v =
    IsValid-Same s (modify id (go_to place) s.heap) s.main
      (Same-modify s.heap id (go_to place) (refl, refl, going ∙ sym alive, refl)) v.held v

IsValid-check_closed :
    (id : ℕ) (s : State) → (s.heap id).reader ≡ at_top → IsValid s → IsValid (check_closed id s)
unfolding check_closed
IsValid-check_closed id s place v = elim (Bool-cases (s.heap id).closed) [
  | inl shut ↦ rw shut (IsValid-finish id s v)
  | inr going ↦ rw going (IsValid-go_to id in_read s (ap running place) refl v)
]

IsValid-pass_on :
    (resolve write : Option Error) (id : ℕ) (s : State)
    → running (s.heap id).reader ≡ true
    → IsValid s
    → IsValid (pass_on resolve write id s)
unfolding pass_on
IsValid-pass_on (some e) write id s alive v = IsValid-finish id s v
IsValid-pass_on none (some e) id s alive v = IsValid-finish id s v
IsValid-pass_on none none id s alive v = IsValid-go_to id at_top s alive refl v

IsValid-read :
    (now : ℕ) (outcome : ReadOutcome) (id : ℕ) (s : State)
    → (s.heap id).reader ≡ in_read
    → IsValid s
    → IsValid (read now outcome id s)
unfolding read
IsValid-read now timed_out id s place v = elim (Bool-cases (s.heap id).closed) [
  | inl shut ↦ rw shut (IsValid-finish id s v)
  | inr going ↦ rw going (IsValid-go_to id at_top s (ap running place) refl v)
]
IsValid-read now failed id s place v = IsValid-finish id s v
IsValid-read now (received resolve write) id s place v =
    IsValid-pass_on resolve write id (record s { heap = modify id (touch now) s.heap })
      (touched now id s ∙ ap running place)
      (IsValid-Same s (modify id (touch now) s.heap) s.main
        (Same-modify s.heap id (touch now) (refl, refl, refl, refl)) v.held v)

IsValid-Step :
    {settings : TunnelSettings} {s s' : State} → IsValid s → Step settings s s' → IsValid s'
IsValid-Step {settings = settings} {s = s} v (client_packet now dial src idle e) =
    subst IsValid (sym e) (IsValid-receive settings.target now dial src s v)
IsValid-Step {s = s} v (client_forward now id held e) =
    subst IsValid (sym e) (IsValid-forward now id s v)
IsValid-Step {settings = settings} {s = s} v (cleanup now on e) =
    subst IsValid (sym e) (IsValid-tick now settings.duration s v)
IsValid-Step {s = s} v (reader_check id below place e) =
    subst IsValid (sym e) (IsValid-check_closed id s place v)
IsValid-Step {s = s} v (reader_read now outcome id below place e) =
    subst IsValid (sym e) (IsValid-read now outcome id s place v)

-- After any sequence of turns of the main loop, of the cleanup and of the goroutines: the sessions of the
-- table exist, each under the address of its client, one for an address, with their goroutines running
-- and not told to stop; each session whose goroutine runs and is not told to stop is in the table; and
-- the connection of a session is open exactly as long as its goroutine runs.
pub Reachable-IsValid : {settings : TunnelSettings} {s : State} → Reachable settings s → IsValid s
Reachable-IsValid start = IsValid-initial
Reachable-IsValid (after r step) = IsValid-Step (Reachable-IsValid r) step

-- A session that has left the table while its goroutine runs ends at the next turn of the goroutine: at
-- the top of the loop, or when its read times out. Its connection is closed then.
pub left-ended :
    {settings : TunnelSettings} {s : State}
    → Reachable settings s
    → (id now : ℕ) → id < s.next
    → (In (s.heap id).src id s.table → ⊥)
    → running (s.heap id).reader ≡ true
    → (((check_closed id s).heap id).connected ≡ false)
      × (running ((check_closed id s).heap id).reader ≡ false)
      × (((read now timed_out id s).heap id).connected ≡ false)
      × (running ((read now timed_out id s).heap id).reader ≡ false)
unfolding check_closed read
left-ended {s = s} r id now below left alive = elim (Bool-cases (s.heap id).closed) [
  | inr going ↦ absurd (left ((Reachable-IsValid r).owned id below alive going))
  | inl shut ↦
      let done = finish-Finished id s (Reachable-IsValid r) in
      rw shut (done.self.1, done.self.0, done.self.1, done.self.0)
]

-- The packet of client `src` goes to session `id`, in the step from `s` to `s'`.
abbrev GoesTo : ℕ → Bytes → State → State → ℕ → Type 0
GoesTo now src s s' id =
    (s'.main ≡ holding id)
    × In src id s'.table
    × ((s'.heap id).src ≡ src)
    × ((s'.heap id).last_active ≡ now)
    × ((i : ℕ) → i ≢ id → s'.heap i ≡ s.heap i)

receive-found :
    (target : Bytes) (now : ℕ) (src : Bytes) (s : State) (id : ℕ)
    → find s.table src ≡ some id
    → (s.heap id).src ≡ src
    → GoesTo now src s (receive target now none src s) id
unfolding receive get_or_create_session
receive-found target now src s id found key =
    rw (receive, get_or_create_session, found)
      (refl, find-In s.table src id found, ground arith, ground arith, λ i ne. ground arith)

receive-created :
    (target : Bytes) (now : ℕ) (src : Bytes) (s : State)
    → find s.table src ≡ none
    → GoesTo now src s (receive target now none src s) s.next
unfolding receive
receive-created target now src s missing =
    subst (λ r. GoesTo now src s (hold r) s.next)
      (sym (get_or_create-none target now src s missing))
      (refl, inl (refl, refl), ground arith, ground arith, λ i ne. ground arith)

-- If the dial succeeds, a packet goes to a session of the table that stands under its client and that is
-- active now; all other sessions stay as they were.
receive-GoesTo :
    {settings : TunnelSettings} {s : State}
    → Reachable settings s
    → (target : Bytes) (now : ℕ) (src : Bytes)
    → (id : ℕ) × GoesTo now src s (receive target now none src s) id
receive-GoesTo {s = s} r target now src = elim (Option-cases (find s.table src)) [
  | inl missing ↦ (s.next, receive-created target now src s missing)
  | inr (id, found) ↦
      let (_, key, _, _) = (Reachable-IsValid r).listed src id (find-In s.table src id found) in
      (id, receive-found target now src s id found key)
]

-- The cleanup keeps a session exactly if it has been active within the timeout, and tells those that it
-- takes out to stop.
pub tick-In :
    (now duration : ℕ) (s : State) (src : Bytes) (id : ℕ)
    → (In src id (tick now duration s).table
        ↔ (In src id s.table × (now < (s.heap id).last_active + duration)))
      × (In src id s.table
          → (In src id (tick now duration s).table → ⊥)
          → ((tick now duration s).heap id).closed ≡ true)
unfolding tick
tick-In now duration s src id = ground (
  arith,
  In-sweep now duration s.table s.heap src id,
  sweep-closes now duration s.table s.heap src id,
)

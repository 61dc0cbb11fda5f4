-- ===== src/Udp/Packets/Kept.antt =====
-- udp_proxy.go: what the turns leave alone: the client of a session, and that its goroutine has ended.
use model_lib.Base.{
  ℕ, ◌<◌, ◌≤◌, true, false, Bool-cases, Option, none, some, Option-cases, ◌==◌, ◌≡◌, inl, inr, refl,
  ap, ◌∙◌, arith, Bytes, Error, Result, ok, err, subst,
}
use model_lib.Udp.{
  UdpSession, at_top, in_read, holding, State, find, modify, touch, go_to, get_or_create_session,
  receive, forward, tick, remove_session, finish, check_closed, ReadOutcome, timed_out, failed,
  received, pass_on, read,
}
use model_lib.Udp.Table.{find-In}
use model_lib.Udp.Sweep.{sweep-cases}
use model_lib.Udp.Invariant.{running, IsValid, touched}

abbrev pub Kept : UdpSession → UdpSession → Type 0
Kept x y = (y.src ≡ x.src) × (running y.reader ≡ true → running x.reader ≡ true)

-- A turn that leaves the main loop alone.
pub record Quiet (s s' : State) : Type 0 where
  pub next : s'.next ≡ s.next
  pub main : s'.main ≡ s.main
  pub kept : (i : ℕ) → Kept (s.heap i) (s'.heap i)

Quiet-finish : (id : ℕ) (s : State) → Quiet s (finish id s)
unfolding finish remove_session
Quiet-finish id s = elim (Option-cases (find s.table (s.heap id).src)) [
  | inl missing ↦
      rw (finish, remove_session, missing)
        (record { next = refl; main = refl; kept = λ i. ground arith })
  | inr (current, found) ↦ elim (Bool-cases (current == id)) [
    | inl same ↦
        rw (finish, remove_session, found, same)
          (record { next = refl; main = refl; kept = λ i. ground arith })
    | inr other ↦
        rw (finish, remove_session, found, other)
          (record { next = refl; main = refl; kept = λ i. ground arith })
  ]
]

pub finish_ended : (id : ℕ) (s : State) → running ((finish id s).heap id).reader ≡ false
unfolding finish
finish_ended id s = ground arith

pub Quiet-tick : (now duration : ℕ) (s : State) → Quiet s (tick now duration s)
unfolding tick
Quiet-tick now duration s = record {
  next = refl;
  main = refl;
  kept = λ i. ground (arith, sweep-cases now duration s.table s.heap i);
}

Quiet-trans : {s m s' : State} → Quiet s m → Quiet m s' → Quiet s s'
Quiet-trans q r = record {
  next = r.next ∙ q.next;
  main = r.main ∙ q.main;
  kept = λ i. (((r.kept i).0 ∙ (q.kept i).0), λ alive. (q.kept i).1 ((r.kept i).1 alive));
}

Quiet-modify :
    (id : ℕ) (change : UdpSession → UdpSession) (s : State)
    → Kept (s.heap id) (change (s.heap id))
    → Quiet s (record s { heap = modify id change s.heap })
Quiet-modify id change s same = record {
  next = refl;
  main = refl;
  kept = λ i. elim (Bool-cases (id == i)) [
    | inl here ↦
        let e : id ≡ i = ground arith in
        subst (λ j. Kept (s.heap j) (modify id change s.heap j)) e (ground (arith, same))
    | inr other ↦ rw other (refl, λ alive. alive)
  ];
}

pub Quiet-check_closed :
    (id : ℕ) (s : State) → (s.heap id).reader ≡ at_top → Quiet s (check_closed id s)
unfolding check_closed
Quiet-check_closed id s place = elim (Bool-cases (s.heap id).closed) [
  | inl shut ↦ rw shut (Quiet-finish id s)
  | inr going ↦ rw going (Quiet-modify id (go_to in_read) s (refl, λ alive. ap running place))
]

Quiet-pass_on :
    (resolve write : Option Error) (id : ℕ) (s : State)
    → running (s.heap id).reader ≡ true
    → Quiet s (pass_on resolve write id s)
unfolding pass_on
Quiet-pass_on (some e) write id s alive = Quiet-finish id s
Quiet-pass_on none (some e) id s alive = Quiet-finish id s
Quiet-pass_on none none id s alive = Quiet-modify id (go_to at_top) s (refl, λ still. alive)

pub Quiet-read :
    (now : ℕ) (outcome : ReadOutcome) (id : ℕ) (s : State)
    → (s.heap id).reader ≡ in_read
    → Quiet s (read now outcome id s)
unfolding read
Quiet-read now timed_out id s place = elim (Bool-cases (s.heap id).closed) [
  | inl shut ↦ rw shut (Quiet-finish id s)
  | inr going ↦ rw going (Quiet-modify id (go_to at_top) s (refl, λ still. ap running place))
]
Quiet-read now failed id s place = Quiet-finish id s
Quiet-read now (received resolve write) id s place =
    Quiet-trans (Quiet-modify id (touch now) s (refl, λ still. still)) (
      Quiet-pass_on resolve write id (record s { heap = modify id (touch now) s.heap })
        (touched now id s ∙ ap running place))

-- A packet of a client gets a session of this client, or the dial fails and the state stays.
pub data Got (src : Bytes) (s s' : State) : Result ℕ → Type 0 where
  session :
      (id : ℕ)
      → s.next ≤ s'.next
      → s'.main ≡ holding id
      → (s'.heap id).src ≡ src
      → ((i : ℕ) → i < s.next → Kept (s.heap i) (s'.heap i))
      → Got src s s' (ok id)
  no_session : (e : Error) → s' ≡ s → Got src s s' (err e)

Got-found :
    (target : Bytes) (now : ℕ) (dial : Option Error) (src : Bytes) (s : State) (id : ℕ)
    → find s.table src ≡ some id
    → (s.heap id).src ≡ src
    → Got src s (receive target now dial src s) (get_or_create_session target now dial src s).1
unfolding receive get_or_create_session
Got-found target now dial src s id found key =
    rw (receive, get_or_create_session, found)
      (session id (omega arith) refl (ground arith) (λ i below. ground arith))

Got-missing :
    (target : Bytes) (now : ℕ) (dial : Option Error) (src : Bytes) (s : State)
    → find s.table src ≡ none
    → Got src s (receive target now dial src s) (get_or_create_session target now dial src s).1
unfolding receive get_or_create_session
Got-missing target now none src s missing =
    rw (receive, get_or_create_session, missing)
      (session s.next (omega arith) refl (ground arith) (λ i below. ground arith))
Got-missing target now (some e) src s missing =
    rw (receive, get_or_create_session, missing) (no_session _ refl)

pub receive-Got :
    (target : Bytes) (now : ℕ) (dial : Option Error) (src : Bytes) (s : State)
    → IsValid s
    → Got src s (receive target now dial src s) (get_or_create_session target now dial src s).1
receive-Got target now dial src s v = elim (Option-cases (find s.table src)) [
  | inl missing ↦ Got-missing target now dial src s missing
  | inr (id, found) ↦
      Got-found target now dial src s id found (v.listed src id (find-In s.table src id found)).1
]

pub forward-Kept : (now id : ℕ) (s : State) (i : ℕ) → Kept (s.heap i) ((forward now id s).heap i)
unfolding forward
forward-Kept now id s = (Quiet-modify id (touch now) s (refl, λ still. still)).kept

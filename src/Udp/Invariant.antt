-- ===== src/Udp/Invariant.antt =====
-- udp_proxy.go: the invariant of the sessions, and the turns of the main loop and of the cleanup.
use model_lib.Base.{
  ℕ, ◌+◌, ◌<◌, Bool, true, false, Bool-cases, Option, none, some, Option-cases, ◌∷◌, ◌==◌, ◌≡◌, inl,
  inr, refl, sym, ap, ◌∙◌, arith, Bytes, Error, subst, ok,
}
use model_lib.Udp.{
  Reader, at_top, in_read, ended, UdpSession, MainLoop, listening, holding, State, find, modify,
  touch, hold, new_session, get_or_create_session, receive, forward, expired, sweep, tick,
}
use model_lib.Udp.Table.{In, Unique, find-In, find-none}
use model_lib.Udp.Sweep.{In-sweep, sweep-cases, sweep-closes}
use model_lib.Udp.Steps.{initial}

abbrev pub running : Reader → Bool
running at_top = true
running in_read = true
running ended = false

-- `listed`: a session of the table exists, has the key as its address, is not told to stop and has its
-- goroutine. `owned`: a session with a goroutine that is not told to stop is in the table. `connection`:
-- the connection is open as long as the goroutine runs.
pub record IsValid (s : State) : Type 0 where
  pub listed :
      (src : Bytes) (id : ℕ)
      → In src id s.table
      → (id < s.next)
        × ((s.heap id).src ≡ src)
        × ((s.heap id).closed ≡ false)
        × (running (s.heap id).reader ≡ true)
  pub unique : Unique s.table
  pub owned :
      (id : ℕ)
      → id < s.next
      → running (s.heap id).reader ≡ true
      → (s.heap id).closed ≡ false
      → In (s.heap id).src id s.table
  pub connection : (id : ℕ) → id < s.next → (s.heap id).connected ≡ running (s.heap id).reader
  pub held : (id : ℕ) → s.main ≡ holding id → id < s.next

-- A change that leaves alone what the invariant speaks of.
abbrev pub Same : UdpSession → UdpSession → Type 0
Same x y =
    (y.src ≡ x.src)
    × (y.closed ≡ x.closed)
    × (running y.reader ≡ running x.reader)
    × (y.connected ≡ x.connected)

pub IsValid-Same :
    (s : State) (heap : ℕ → UdpSession) (main : MainLoop)
    → ((i : ℕ) → Same (s.heap i) (heap i))
    → ((id : ℕ) → main ≡ holding id → id < s.next)
    → IsValid s
    → IsValid (record s { heap = heap; main = main })
IsValid-Same s heap main same held v = record {
  listed = λ src id h.
      let (below, key, open_chan, alive) = v.listed src id h in
      let (a, b, c, d) = same id in (below, a ∙ key, b ∙ open_chan, c ∙ alive);
  unique = v.unique;
  owned = λ id below alive open_chan.
      let (a, b, c, d) = same id in
      subst (λ src. In src id s.table) (sym a)
        (v.owned id below (sym c ∙ alive) (sym b ∙ open_chan));
  connection = λ id below. let (a, b, c, d) = same id in d ∙ v.connection id below ∙ sym c;
  held = held;
}

pub Same-modify :
    (heap : ℕ → UdpSession) (id : ℕ) (change : UdpSession → UdpSession)
    → Same (heap id) (change (heap id))
    → (i : ℕ) → Same (heap i) (modify id change heap i)
Same-modify heap id change same i = elim (Bool-cases (id == i)) [
  | inl here ↦
      let e : id ≡ i = ground arith in
      subst (λ j. Same (heap j) (modify id change heap j)) e (ground (arith, same))
  | inr other ↦ rw other (refl, refl, refl, refl)
]

pub touched :
    (now id : ℕ) (s : State)
    → running (modify id (touch now) s.heap id).reader ≡ running (s.heap id).reader
touched now id s = (Same-modify s.heap id (touch now) (refl, refl, refl, refl) id).2

pub IsValid-initial : IsValid initial
IsValid-initial = record {
  listed = λ src id h. absurd h;
  unique = λ src i j h. absurd h;
  owned = λ id below. absurd (omega arith);
  connection = λ id below. absurd (omega arith);
  held = λ id e. cc;
}

-- A new session in the table.
IsValid-create :
    (s : State) (src : Bytes) (now : ℕ)
    → find s.table src ≡ none
    → IsValid s
    → IsValid (record s {
      heap = modify s.next (λ old. new_session src now) s.heap;
      next = s.next + 1;
      table = (src, s.next) ∷ s.table;
      main = holding s.next;
    })
IsValid-create s src now missing v = record {
  listed = λ key id h. ground (arith, v.listed key id);
  unique = λ key i j h k.
      ground
        (arith, v.unique key i j, find-none s.table src i missing, find-none s.table src j missing);
  owned = λ id below alive open_chan. ground (arith, v.owned id);
  connection = λ id below. ground (arith, v.connection id);
  held = λ id e. ground arith;
}

IsValid-found :
    (target : Bytes) (now : ℕ) (dial : Option Error) (src : Bytes) (s : State) (id : ℕ)
    → find s.table src ≡ some id
    → IsValid s
    → IsValid (receive target now dial src s)
unfolding receive get_or_create_session
IsValid-found target now dial src s id found v =
    rw (receive, get_or_create_session, found)
      (IsValid-Same s (modify id (touch now) s.heap) (holding id)
        (Same-modify s.heap id (touch now) (refl, refl, refl, refl))
        (λ i e. ground (arith, v.listed src id (find-In s.table src id found))) v)

pub get_or_create-none :
    (target : Bytes) (now : ℕ) (src : Bytes) (s : State)
    → find s.table src ≡ none
    → get_or_create_session target now none src s ≡ (
      record s {
        heap = modify s.next (λ old. new_session src now) s.heap;
        next = s.next + 1;
        table = (src, s.next) ∷ s.table;
      },
      ok s.next,
    )
unfolding get_or_create_session
get_or_create-none target now src s missing = rw (get_or_create_session, missing)

get_or_create-refused :
    (target : Bytes) (now : ℕ) (refused : Error) (src : Bytes) (s : State)
    → find s.table src ≡ none
    → hold (get_or_create_session target now (some refused) src s) ≡ s
unfolding get_or_create_session
get_or_create-refused target now refused src s missing = rw (get_or_create_session, missing)

IsValid-missing :
    (target : Bytes) (now : ℕ) (dial : Option Error) (src : Bytes) (s : State)
    → find s.table src ≡ none
    → IsValid s
    → IsValid (receive target now dial src s)
unfolding receive
IsValid-missing target now none src s missing v =
    subst (λ r. IsValid (hold r)) (sym (get_or_create-none target now src s missing))
      (IsValid-create s src now missing v)
IsValid-missing target now (some refused) src s missing v =
    subst IsValid (sym (get_or_create-refused target now refused src s missing)) v

pub IsValid-receive :
    (target : Bytes) (now : ℕ) (dial : Option Error) (src : Bytes) (s : State)
    → IsValid s
    → IsValid (receive target now dial src s)
IsValid-receive target now dial src s v = elim (Option-cases (find s.table src)) [
  | inr (id, found) ↦ IsValid-found target now dial src s id found v
  | inl missing ↦ IsValid-missing target now dial src s missing v
]

pub IsValid-forward : (now id : ℕ) (s : State) → IsValid s → IsValid (forward now id s)
unfolding forward
IsValid-forward now id s v =
    IsValid-Same s (modify id (touch now) s.heap) listening
      (Same-modify s.heap id (touch now) (refl, refl, refl, refl)) (λ i e. cc) v

swept-owned :
    (now duration : ℕ) (s : State)
    → IsValid s
    → (id : ℕ) → id < s.next
    → running ((sweep now duration s.table s.heap).1 id).reader ≡ true
    → ((sweep now duration s.table s.heap).1 id).closed ≡ false
    → In ((sweep now duration s.table s.heap).1 id).src id (sweep now duration s.table s.heap).0
swept-owned now duration s v id below alive open_chan =
    let swept = sweep now duration s.table s.heap in
    elim (sweep-cases now duration s.table s.heap id) [
      | inr (shut, _) ↦ cc (sym (ap (λ (x : UdpSession). x.closed) shut) ∙ open_chan)
      | inl same ↦
          let owned =
            v.owned id below (sym (ap (λ (x : UdpSession). running x.reader) same) ∙ alive)
              (sym (ap (λ (x : UdpSession). x.closed) same) ∙ open_chan) in
          let recent : expired now duration (s.heap id) ≡ false =
            elim (Bool-cases (expired now duration (s.heap id))) [
              | inr no_ ↦ no_
              | inl dead ↦ cc (
                  sym (sweep-closes now duration s.table s.heap (s.heap id).src id owned dead)
                  ∙ open_chan)
            ] in
          subst (λ (x : UdpSession). In x.src id swept.0) (sym same)
            ((In-sweep now duration s.table s.heap (s.heap id).src id).1 (owned, recent))
    ]

pub IsValid-tick : (now duration : ℕ) (s : State) → IsValid s → IsValid (tick now duration s)
unfolding tick
IsValid-tick now duration s v = record {
  listed = λ src id h. ground (
    arith,
    v.listed src id,
    In-sweep now duration s.table s.heap src id,
    sweep-cases now duration s.table s.heap id,
  );
  unique = λ src i j h k.
      v.unique src i j ((In-sweep now duration s.table s.heap src i).0 h).0
        ((In-sweep now duration s.table s.heap src j).0 k).0;
  owned = swept-owned now duration s v;
  connection =
      λ id below. ground (arith, v.connection id, sweep-cases now duration s.table s.heap id);
  held = v.held;
}

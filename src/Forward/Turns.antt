-- ===== src/Forward/Turns.antt =====
-- routine.go: how many turns a goroutine of a tunnel has.
use model_lib.Base.{
  ℕ, ◌+◌, ◌-◌, ◌*◌, ◌≤◌, ◌<◌, if-holds, List, [], ◌∷◌, length, ◌≡◌, ◌⊎◌, inl, inr, refl, arith,
  Bytes,
}
use model_lib.Forward.{
  Conn, Copier, in_read, ended, in_write, Way, Outcome, fine, failed, leave, after_read, write,
  read, conn_forward, Tunnel, way_right, way_left, Turn, go_right, go_left, step, run,
}
use model_lib.Forward.Order.{conn_forward-Untouched}

-- The turns that a goroutine has left at most, by what it has not read.
abbrev pub turns_left : Copier → List Bytes → ℕ
turns_left ended incoming = 0
turns_left in_read incoming = 2 * length incoming + 1
turns_left (in_write chunk) incoming = 2 * length incoming + 2

abbrev way_left_of : Way → ℕ
way_left_of w = turns_left w.copier w.from.incoming

abbrev Fewer : ℕ → Way → Type 0
Fewer n w = way_left_of w < n

after_read-Fewer :
    (incoming : List Bytes) (w : Way)
    → w.copier ≡ in_read
    → Fewer (2 * length incoming + 1) (after_read incoming w)
unfolding after_read leave
after_read-Fewer [] w e = omega arith
after_read-Fewer ([] ∷ rest) w e = rw e (omega arith)
after_read-Fewer ((c ∷ chunk) ∷ rest) w e = omega arith

-- A turn of a goroutine that runs leaves it fewer turns.
conn_forward-Fewer :
    (copier : Copier) (o : Outcome) (from to : Conn)
    → let w : Way = record { from = from; to = to; copier = copier } in
      (copier ≡ ended) ⊎ Fewer (turns_left copier from.incoming) (conn_forward copier o w)
unfolding conn_forward read write leave
conn_forward-Fewer ended o from to = inl refl
conn_forward-Fewer in_read (failed n) from to = inr (omega arith)
conn_forward-Fewer in_read fine from to = inr (
    if-holds (Fewer (2 * length from.incoming + 1)) from.closed (omega arith)
      (after_read-Fewer from.incoming _ refl))
conn_forward-Fewer (in_write chunk) (failed n) from to = inr (omega arith)
conn_forward-Fewer (in_write chunk) fine from to =
    inr (if-holds (Fewer (2 * length from.incoming + 2)) to.closed (omega arith) (omega arith))

-- How often each goroutine has its turn.
unfoldable pub rights : List Turn → ℕ
rights [] = 0
rights (go_right o ∷ turns) = rights turns + 1
rights (go_left o ∷ turns) = rights turns

unfoldable pub lefts : List Turn → ℕ
lefts [] = 0
lefts (go_left o ∷ turns) = lefts turns + 1
lefts (go_right o ∷ turns) = lefts turns

pub turns_left-zero :
    (copier : Copier) (incoming : List Bytes) → turns_left copier incoming ≤ 0 → copier ≡ ended
turns_left-zero ended incoming h = refl
turns_left-zero in_read incoming h = absurd (omega arith)
turns_left-zero (in_write chunk) incoming h = absurd (omega arith)

abbrev pub right_left : Tunnel → ℕ
right_left t = turns_left t.rightward t.left.incoming

abbrev pub left_left : Tunnel → ℕ
left_left t = turns_left t.leftward t.right.incoming

-- A turn uses one of the turns of its goroutine, and none of the other's.
step-left :
    (turn : Turn) (t : Tunnel)
    → (right_left (step turn t) ≤ right_left t - rights (turn ∷ []))
      × (left_left (step turn t) ≤ left_left t - lefts (turn ∷ []))
unfolding step rights lefts conn_forward
step-left (go_right o) t = (
  elim (conn_forward-Fewer t.rightward o t.left t.right) [
    | inl done ↦ rw (done, conn_forward) (omega arith)
    | inr fewer ↦ omega (arith, fewer)
  ],
  rw ((conn_forward-Untouched t.rightward o (way_right t)).1) (omega arith),
)
step-left (go_left o) t = (
  rw ((conn_forward-Untouched t.leftward o (way_left t)).1) (omega arith),
  elim (conn_forward-Fewer t.leftward o t.right t.left) [
    | inl done ↦ rw (done, conn_forward) (omega arith)
    | inr fewer ↦ omega (arith, fewer)
  ],
)

counts-cons :
    (turn : Turn) (turns : List Turn)
    → (rights (turn ∷ turns) ≡ rights (turn ∷ []) + rights turns)
      × (lefts (turn ∷ turns) ≡ lefts (turn ∷ []) + lefts turns)
unfolding rights lefts
counts-cons (go_right o) turns = (omega arith, omega arith)
counts-cons (go_left o) turns = (omega arith, omega arith)

pub run-left :
    (turns : List Turn) (t : Tunnel)
    → (right_left (run turns t) ≤ right_left t - rights turns)
      × (left_left (run turns t) ≤ left_left t - lefts turns)
unfolding run
run-left [] t = unfold rights lefts in (omega arith, omega arith)
run-left (turn ∷ turns) t =
    let (r, l) = run-left turns (step turn t) in
    let (r', l') = step-left turn t in
    let (cr, cl) = counts-cons turn turns in (omega arith, omega arith)

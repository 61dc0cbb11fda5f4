-- ===== src/Forward/Complete.antt =====
-- routine.go: a tunnel on which nothing fails.
use model_lib.Base.{
  false, if-false, List, [], ◌∷◌, ◌++◌, append-nil, ◌≡◌, ◌⊎◌, inl, inr, refl, sym, ap, subst, ◌∙◌,
  Bytes, All,
}
use model_lib.Forward.{
  Conn, Copier, in_read, ended, in_write, Way, Outcome, fine, leave, after_read, write, read,
  conn_forward, Tunnel, way_right, way_left, Turn, go_right, go_left, step, run, start,
}
use model_lib.Forward.Order.{stream, WayFlows, BothFlow, conn_forward-Untouched, step-BothFlow}
use model_lib.Forward.Ends.{one-ended}

-- No call fails but on a connection that was closed here.
abbrev pub IsFine : Turn → Type 0
IsFine (go_right o) = o ≡ fine
IsFine (go_left o) = o ≡ fine

abbrev IsOpen : Way → Type 0
IsOpen w = (w.from.closed ≡ false) × (w.to.closed ≡ false)

-- The goroutine goes on, or it has written all that was sent.
abbrev Delivers : Bytes → Way → Type 0
Delivers sent w = IsOpen w ⊎ ((w.copier ≡ ended) × (w.to.written ≡ sent))

after_read-Delivers :
    (sent : Bytes) (incoming : List Bytes) (w : Way)
    → IsOpen w
    → w.to.written ++ stream incoming ≡ sent
    → Delivers sent (after_read incoming w)
unfolding after_read stream leave
after_read-Delivers sent [] w open_ways e = inr (refl, sym (append-nil w.to.written) ∙ e)
after_read-Delivers sent ([] ∷ rest) w open_ways e = inl open_ways
after_read-Delivers sent ((c ∷ chunk) ∷ rest) w open_ways e = inl open_ways

conn_forward-Delivers :
    (sent : Bytes) (copier : Copier) (from to : Conn)
    → let w : Way = record { from = from; to = to; copier = copier } in
      IsOpen w → WayFlows sent w → Delivers sent (conn_forward copier fine w)
unfolding conn_forward read write
conn_forward-Delivers sent ended from to open_ways flows = inl open_ways
conn_forward-Delivers sent in_read from to (a, b) flows =
    subst (Delivers sent) (sym (if-false from.closed _ _ a)) (
      after_read-Delivers sent from.incoming (record { from = from; to = to; copier = in_read })
        (a, b) flows)
conn_forward-Delivers sent (in_write chunk) from to (a, b) flows =
    subst (Delivers sent) (sym (if-false to.closed _ _ b)) (inl (a, b))

-- One way has been copied to its end.
abbrev pub DoneRight : Bytes → Tunnel → Type 0
DoneRight from_left t = (t.rightward ≡ ended) × (t.right.written ≡ from_left)

abbrev pub DoneLeft : Bytes → Tunnel → Type 0
DoneLeft from_right t = (t.leftward ≡ ended) × (t.left.written ≡ from_right)

abbrev Progress : Bytes → Bytes → Tunnel → Type 0
Progress from_left from_right t =
    ((t.left.closed ≡ false) × (t.right.closed ≡ false))
    ⊎ (DoneRight from_left t ⊎ DoneLeft from_right t)

ended-stays :
    (o : Outcome) (copier : Copier) (w : Way) → copier ≡ ended → conn_forward copier o w ≡ w
unfolding conn_forward
ended-stays o copier w e = rw e

step-Progress :
    (from_left from_right : Bytes) (turn : Turn) (t : Tunnel)
    → IsFine turn
    → BothFlow from_left from_right t
    → Progress from_left from_right t
    → Progress from_left from_right (step turn t)
unfolding step
step-Progress from_left from_right (go_right o) t e (r, l) (inl (a, b)) =
    rw e (elim (conn_forward-Delivers from_left t.rightward t.left t.right (a, b) r) [
      | inl still ↦ inl still
      | inr done ↦ inr (inl done)
    ])
step-Progress from_left from_right (go_left o) t e (r, l) (inl (a, b)) =
    rw e (elim (conn_forward-Delivers from_right t.leftward t.right t.left (b, a) l) [
      | inl (b', a') ↦ inl (a', b')
      | inr done ↦ inr (inr done)
    ])
step-Progress from_left from_right (go_right o) t e (r, l) (inr (inl (over, all))) =
    let same = ended-stays o t.rightward (way_right t) over in
    inr (inl (ap (λ w. w.copier) same ∙ over, ap (λ w. w.to.written) same ∙ all))
step-Progress from_left from_right (go_left o) t e (r, l) (inr (inr (over, all))) =
    let same = ended-stays o t.leftward (way_left t) over in
    inr (inr (ap (λ w. w.copier) same ∙ over, ap (λ w. w.to.written) same ∙ all))
step-Progress from_left from_right (go_right o) t e (r, l) (inr (inr (over, all))) =
    inr (inr (over, (conn_forward-Untouched t.rightward o (way_right t)).0 ∙ all))
step-Progress from_left from_right (go_left o) t e (r, l) (inr (inl (over, all))) =
    inr (inl (over, (conn_forward-Untouched t.leftward o (way_left t)).0 ∙ all))

run-Progress :
    (from_left from_right : Bytes) (turns : List Turn) (t : Tunnel)
    → All IsFine turns
    → BothFlow from_left from_right t
    → Progress from_left from_right t
    → Progress from_left from_right (run turns t)
unfolding run
run-Progress from_left from_right [] t f flow p = p
run-Progress from_left from_right (turn ∷ turns) t (f, fs) flow p =
    run-Progress from_left from_right turns (step turn t) fs
      (step-BothFlow from_left from_right turn t flow)
      (step-Progress from_left from_right turn t f flow p)

-- If no call fails but on a connection that was closed here, then as soon as a goroutine has ended, one of
-- the two ways has been copied whole: its goroutine has ended, and all that was sent has arrived.
pub run-Done :
    (turns : List Turn) (from_left from_right : List Bytes)
    → All IsFine turns
    → ((run turns (start from_left from_right)).rightward ≡ ended)
      ⊎ ((run turns (start from_left from_right)).leftward ≡ ended)
    → DoneRight (stream from_left) (run turns (start from_left from_right))
      ⊎ DoneLeft (stream from_right) (run turns (start from_left from_right))
run-Done turns from_left from_right f over =
    let shut = one-ended turns from_left from_right over in
    elim (run-Progress (stream from_left) (stream from_right) turns (start from_left from_right) f
      (refl, refl) (inl (refl, refl))) [ inl (still, _) ↦ cc (shut.0, still) | inr done ↦ done ]

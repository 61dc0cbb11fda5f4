-- ===== src/Forward/Ends.antt =====
-- routine.go: both goroutines of a tunnel end, and close both connections.
use model_lib.Base.{
  ◌+◌, ◌*◌, ◌≤◌, true, if-holds, List, [], ◌∷◌, length, ◌≡◌, ◌⊎◌, inl, inr, refl, arith, Bytes,
  take, if◌then◌else◌,
}
use model_lib.Forward.{
  Conn, Copier, in_read, ended, in_write, Way, Outcome, fine, failed, leave, after_read, put, write,
  read, conn_forward, Tunnel, Turn, go_right, go_left, step, run, start,
}
use model_lib.Forward.Turns.{turns_left-zero, rights, lefts, run-left}

-- A goroutine that has ended has closed both connections.
abbrev pub Shut : Tunnel → Type 0
Shut t = (t.left.closed ≡ true) × (t.right.closed ≡ true)

abbrev EndedShut : Tunnel → Type 0
EndedShut t = (t.rightward ≡ ended → Shut t) × (t.leftward ≡ ended → Shut t)

-- A closed connection stays closed, and a goroutine that ends closes both.
abbrev Shuts : Way → Way → Type 0
Shuts w w' =
    (w.from.closed ≡ true → w'.from.closed ≡ true)
    × (w.to.closed ≡ true → w'.to.closed ≡ true)
    × (w'.copier ≡ ended → (w.copier ≡ ended) ⊎ ((w'.from.closed ≡ true) × (w'.to.closed ≡ true)))

leave-Shuts : (w v : Way) → Shuts w (leave v)
unfolding leave
leave-Shuts w v = ((λ e. refl), (λ e. refl), λ e. inr (refl, refl))

after_read-Shuts :
    (incoming : List Bytes) (w : Way) → w.copier ≡ in_read → Shuts w (after_read incoming w)
unfolding after_read
after_read-Shuts [] w here = leave-Shuts w w
after_read-Shuts ([] ∷ rest) w here = ((λ e. e), (λ e. e), λ e. inl e)
after_read-Shuts ((c ∷ chunk) ∷ rest) w here = ((λ e. e), (λ e. e), λ e. cc)

read-Shuts : (o : Outcome) (w : Way) → w.copier ≡ in_read → Shuts w (read o w)
unfolding read
read-Shuts (failed n) w here = leave-Shuts w w
read-Shuts fine w here =
    if-holds (Shuts w) w.from.closed (leave-Shuts w w) (after_read-Shuts w.from.incoming w here)

write-Shuts : (o : Outcome) (chunk : Bytes) (w : Way) → Shuts w (write o chunk w)
unfolding write
write-Shuts (failed n) chunk w = leave-Shuts w (if w.to.closed then w else put (take n chunk) w)
write-Shuts fine chunk w =
    if-holds (Shuts w) w.to.closed (leave-Shuts w w) ((λ e. e), (λ e. e), λ e. cc)

conn_forward-Shuts :
    (copier : Copier) (o : Outcome) (from to : Conn)
    → let w : Way = record { from = from; to = to; copier = copier } in
      Shuts w (conn_forward copier o w)
unfolding conn_forward
conn_forward-Shuts ended o from to = ((λ e. e), (λ e. e), λ e. inl e)
conn_forward-Shuts in_read o from to =
    read-Shuts o (record { from = from; to = to; copier = in_read }) refl
conn_forward-Shuts (in_write chunk) o from to =
    write-Shuts o chunk (record { from = from; to = to; copier = in_write chunk })

step-EndedShut : (turn : Turn) (t : Tunnel) → EndedShut t → EndedShut (step turn t)
unfolding step
step-EndedShut (go_right o) t (r, l) =
    let (from, to, new) = conn_forward-Shuts t.rightward o t.left t.right in
    (
      (λ e. elim (new e) [ inl old ↦ let (a, b) = r old in (from a, to b) | inr shut ↦ shut ]),
      λ e. let (a, b) = l e in (from a, to b),
    )
step-EndedShut (go_left o) t (r, l) =
    let (from, to, new) = conn_forward-Shuts t.leftward o t.right t.left in
    (
      (λ e. let (a, b) = r e in (to a, from b)),
      λ e. elim (new e) [ inl old ↦ let (a, b) = l old in (to a, from b) | inr (b, a) ↦ (a, b) ],
    )

run-EndedShut : (turns : List Turn) (t : Tunnel) → EndedShut t → EndedShut (run turns t)
unfolding run
run-EndedShut [] t v = v
run-EndedShut (turn ∷ turns) t v = run-EndedShut turns (step turn t) (step-EndedShut turn t v)

start-EndedShut : (from_left from_right : List Bytes) → EndedShut (start from_left from_right)
start-EndedShut from_left from_right = ((λ e. cc), λ e. cc)

pub one-ended :
    (turns : List Turn) (from_left from_right : List Bytes)
    → ((run turns (start from_left from_right)).rightward ≡ ended)
      ⊎ ((run turns (start from_left from_right)).leftward ≡ ended)
    → Shut (run turns (start from_left from_right))
one-ended turns from_left from_right over =
    let (r, l) =
      run-EndedShut turns (start from_left from_right) (start-EndedShut from_left from_right) in
    elim over [ inl e ↦ r e | inr e ↦ l e ]

-- If each goroutine has at least 2n+1 turns, where the reads of its connection return n times, both have
-- ended and both connections are closed, whatever fails and in whatever order the turns are.
pub run-ended :
    (turns : List Turn) (from_left from_right : List Bytes)
    → 2 * length from_left + 1 ≤ rights turns
    → 2 * length from_right + 1 ≤ lefts turns
    → let t = run turns (start from_left from_right) in
      (t.rightward ≡ ended)
      × (t.leftward ≡ ended)
      × (t.left.closed ≡ true)
      × (t.right.closed ≡ true)
run-ended turns from_left from_right enough_right enough_left =
    let t = run turns (start from_left from_right) in
    let (r, l) = run-left turns (start from_left from_right) in
    let right_ended = turns_left-zero t.rightward t.left.incoming (omega arith) in
    let left_ended = turns_left-zero t.leftward t.right.incoming (omega arith) in
    let (a, b) = one-ended turns from_left from_right (inl right_ended) in
    (right_ended, left_ended, a, b)

shut-ends :
    (copier : Copier) (o : Outcome) (from to : Conn)
    → from.closed ≡ true
    → to.closed ≡ true
    → (conn_forward copier o (record { from = from; to = to; copier = copier })).copier ≡ ended
unfolding conn_forward read write leave
shut-ends ended o from to a b = refl
shut-ends in_read (failed n) from to a b = refl
shut-ends in_read fine from to a b = simp a
shut-ends (in_write chunk) (failed n) from to a b = refl
shut-ends (in_write chunk) fine from to a b = simp b

-- After any sequence of turns: once one of the goroutines has ended, the other has ended after its next
-- turn, whether it reads or writes.
pub other-ended :
    (turns : List Turn) (o : Outcome) (from_left from_right : List Bytes)
    → ((run turns (start from_left from_right)).rightward ≡ ended)
      ⊎ ((run turns (start from_left from_right)).leftward ≡ ended)
    → ((step (go_left o) (run turns (start from_left from_right))).leftward ≡ ended)
      × ((step (go_right o) (run turns (start from_left from_right))).rightward ≡ ended)
unfolding step
other-ended turns o from_left from_right over =
    let t = run turns (start from_left from_right) in
    let (a, b) = one-ended turns from_left from_right over in
    (shut-ends t.leftward o t.right t.left b a, shut-ends t.rightward o t.left t.right a b)

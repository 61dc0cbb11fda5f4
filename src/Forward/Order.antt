-- ===== src/Forward/Order.antt =====
-- routine.go: what arrives is what was sent, in its order.
use model_lib.Base.{
  if-holds, List, [], ◌∷◌, ◌++◌, append_assoc, ◌≡◌, refl, sym, ap, ◌∙◌, Bytes, take, drop,
  take-append-drop,
}
use model_lib.Forward.{
  Conn, Copier, in_read, ended, in_write, Way, Outcome, fine, failed, leave, after_read, write,
  read, conn_forward, Tunnel, way_right, way_left, Turn, go_right, go_left, step, run, start,
}

-- The bytes of a stream.
unfoldable pub stream : List Bytes → Bytes
stream [] = []
stream (chunk ∷ chunks) = chunk ++ stream chunks

-- What was written, what the goroutine holds and what it has not read make up what was sent; once it has
-- ended some may be lost, from the end.
abbrev pub Flows : Bytes → Bytes → Copier → List Bytes → Type 0
Flows sent written in_read incoming = written ++ stream incoming ≡ sent
Flows sent written (in_write chunk) incoming = written ++ (chunk ++ stream incoming) ≡ sent
Flows sent written ended incoming = (lost : Bytes) × (written ++ lost ≡ sent)

abbrev pub WayFlows : Bytes → Way → Type 0
WayFlows sent w = Flows sent w.to.written w.copier w.from.incoming

after_read-Flows :
    (sent : Bytes) (incoming : List Bytes) (w : Way)
    → w.copier ≡ in_read
    → w.to.written ++ stream incoming ≡ sent
    → WayFlows sent (after_read incoming w)
unfolding after_read leave stream
after_read-Flows sent [] w here e = ([], e)
after_read-Flows sent ([] ∷ rest) w here e = rw here e
after_read-Flows sent ((c ∷ chunk) ∷ rest) w here e = e

read-Flows :
    (sent : Bytes) (o : Outcome) (w : Way)
    → w.copier ≡ in_read
    → w.to.written ++ stream w.from.incoming ≡ sent
    → WayFlows sent (read o w)
unfolding read leave
read-Flows sent (failed n) w here e = (stream w.from.incoming, e)
read-Flows sent fine w here e =
    if-holds (WayFlows sent) w.from.closed (stream w.from.incoming, e)
      (after_read-Flows sent w.from.incoming w here e)

write-Flows :
    (sent : Bytes) (o : Outcome) (chunk : Bytes) (w : Way)
    → w.to.written ++ (chunk ++ stream w.from.incoming) ≡ sent
    → WayFlows sent (write o chunk w)
unfolding write leave
write-Flows sent (failed n) chunk w e =
    if-holds (λ v. WayFlows sent (leave v)) w.to.closed (chunk ++ stream w.from.incoming, e)
      (
        drop n chunk ++ stream w.from.incoming,
        append_assoc w.to.written (take n chunk) (drop n chunk ++ stream w.from.incoming)
            ∙ ap (λ t. w.to.written ++ t)
                (sym (append_assoc (take n chunk) (drop n chunk) (stream w.from.incoming)))
            ∙ ap (λ t. w.to.written ++ (t ++ stream w.from.incoming)) (take-append-drop n chunk)
            ∙ e,
      )
write-Flows sent fine chunk w e =
    if-holds (WayFlows sent) w.to.closed (chunk ++ stream w.from.incoming, e)
      (append_assoc w.to.written chunk (stream w.from.incoming) ∙ e)

pub conn_forward-Flows :
    (sent : Bytes) (o : Outcome) (copier : Copier) (from to : Conn)
    → Flows sent to.written copier from.incoming
    → WayFlows sent (conn_forward copier o (record { from = from; to = to; copier = copier }))
unfolding conn_forward
conn_forward-Flows sent o in_read from to f = read-Flows sent o _ refl f
conn_forward-Flows sent o ended from to f = f
conn_forward-Flows sent o (in_write chunk) from to f = write-Flows sent o chunk _ f

-- The other goroutine closes connections; it leaves the bytes of this way alone.
abbrev pub Untouched : Way → Way → Type 0
Untouched w w' = (w'.from.written ≡ w.from.written) × (w'.to.incoming ≡ w.to.incoming)

pub conn_forward-Untouched :
    (copier : Copier) (o : Outcome) (w : Way) → Untouched w (conn_forward copier o w)
unfolding conn_forward read write after_read leave
conn_forward-Untouched ended o w = (refl, refl)
conn_forward-Untouched in_read (failed n) w = (refl, refl)
conn_forward-Untouched in_read fine w =
    if-holds (Untouched w) w.from.closed (refl, refl) (after w.from.incoming)
  where
    after : (incoming : List Bytes) → Untouched w (after_read incoming w)
    after [] = (refl, refl)
    after ([] ∷ rest) = (refl, refl)
    after ((c ∷ chunk) ∷ rest) = (refl, refl)
conn_forward-Untouched (in_write chunk) (failed n) w =
    if-holds (λ v. Untouched w (leave v)) w.to.closed (refl, refl) (refl, refl)
conn_forward-Untouched (in_write chunk) fine w =
    if-holds (Untouched w) w.to.closed (refl, refl) (refl, refl)

-- Both ways of a tunnel, for what the two ends send.
abbrev pub BothFlow : Bytes → Bytes → Tunnel → Type 0
BothFlow from_left from_right t =
    WayFlows from_left (way_right t) × WayFlows from_right (way_left t)

pub step-BothFlow :
    (from_left from_right : Bytes) (turn : Turn) (t : Tunnel)
    → BothFlow from_left from_right t
    → BothFlow from_left from_right (step turn t)
unfolding step
step-BothFlow from_left from_right (go_right o) t (r, l) =
    let (written, incoming) = conn_forward-Untouched t.rightward o (way_right t) in
    (conn_forward-Flows from_left o t.rightward t.left t.right r, rw (written, incoming) l)
step-BothFlow from_left from_right (go_left o) t (r, l) =
    let (written, incoming) = conn_forward-Untouched t.leftward o (way_left t) in
    (rw (written, incoming) r, conn_forward-Flows from_right o t.leftward t.right t.left l)

pub run-BothFlow :
    (from_left from_right : Bytes) (turns : List Turn) (t : Tunnel)
    → BothFlow from_left from_right t
    → BothFlow from_left from_right (run turns t)
unfolding run
run-BothFlow from_left from_right [] t f = f
run-BothFlow from_left from_right (turn ∷ turns) t f =
    run-BothFlow from_left from_right turns (step turn t)
      (step-BothFlow from_left from_right turn t f)

-- The first text is the beginning of the second.
abbrev pub IsPrefix : Bytes → Bytes → Type 0
IsPrefix a b = (rest : Bytes) × (a ++ rest ≡ b)

Flows-IsPrefix :
    (sent written : Bytes) (copier : Copier) (incoming : List Bytes)
    → Flows sent written copier incoming
    → IsPrefix written sent
Flows-IsPrefix sent written in_read incoming e = (stream incoming, e)
Flows-IsPrefix sent written (in_write chunk) incoming e = (chunk ++ stream incoming, e)
Flows-IsPrefix sent written ended incoming f = f

-- After any sequence of turns, whatever fails: what was written to each connection is the beginning of
-- what was sent on the other.
pub run-IsPrefix :
    (turns : List Turn) (from_left from_right : List Bytes)
    → IsPrefix (run turns (start from_left from_right)).right.written (stream from_left)
      × IsPrefix (run turns (start from_left from_right)).left.written (stream from_right)
run-IsPrefix turns from_left from_right =
    let t = run turns (start from_left from_right) in
    let (r, l) =
      run-BothFlow (stream from_left) (stream from_right) turns (start from_left from_right)
        (refl, refl) in
    (
      Flows-IsPrefix (stream from_left) t.right.written t.rightward t.left.incoming r,
      Flows-IsPrefix (stream from_right) t.left.written t.leftward t.right.incoming l,
    )

-- ===== src/Forward/Tests.antt =====
-- Runs of two goroutines that copy between two connections.
use model_lib.Base.{true, List, [], ◌∷◌, ◌≡◌, ◌⊎◌, inr, refl, arith, Bytes, codes}
use model_lib.Forward.{
  ended, fine, failed, leave, after_read, write, read, conn_forward, Turn, go_right, go_left, step,
  run, start,
}
use model_lib.Forward.Order.{stream, IsPrefix, run-IsPrefix}
use model_lib.Forward.Turns.{rights, lefts}
use model_lib.Forward.Ends.{run-ended, other-ended}
use model_lib.Forward.Complete.{DoneRight, DoneLeft, run-Done}

abbrev request : List Bytes
request = codes "GET" ∷ codes " /" ∷ []

abbrev reply : List Bytes
reply = codes "ok" ∷ []

-- The reply is copied, and then the request, of which a write fails.
abbrev turns : List Turn
turns =
    go_left fine
    ∷ go_right fine
    ∷ go_left fine
    ∷ go_right fine
    ∷ go_right fine
    ∷ go_right (failed 1)
    ∷ go_left fine
    ∷ go_right fine
    ∷ []

copied :
    ((run turns (start request reply)).right.written ≡ codes "GET ")
    × ((run turns (start request reply)).left.written ≡ codes "ok")
unfolding run step conn_forward read write after_read leave
copied = (refl, refl)

run-IsPrefix_example :
    IsPrefix (run turns (start request reply)).right.written (stream request)
    × IsPrefix (run turns (start request reply)).left.written (stream reply)
run-IsPrefix_example = run-IsPrefix turns request reply

run-ended_example :
    ((run turns (start request [])).rightward ≡ ended)
    × ((run turns (start request [])).leftward ≡ ended)
    × ((run turns (start request [])).left.closed ≡ true)
    × ((run turns (start request [])).right.closed ≡ true)
unfolding rights lefts
run-ended_example = run-ended turns request [] (omega arith) (omega arith)

abbrev fine_turns : List Turn
fine_turns = go_left fine ∷ go_right fine ∷ go_left fine ∷ go_left fine ∷ []

other-ended_example :
    ((step (go_left fine) (run fine_turns (start request reply))).leftward ≡ ended)
    × ((step (go_right fine) (run fine_turns (start request reply))).rightward ≡ ended)
unfolding run step conn_forward read write after_read leave
other-ended_example = other-ended fine_turns fine request reply (inr refl)

run-Done_example :
    DoneRight (stream request) (run fine_turns (start request reply))
    ⊎ DoneLeft (stream reply) (run fine_turns (start request reply))
unfolding run step conn_forward read write after_read leave
run-Done_example = run-Done fine_turns request reply (refl, (refl, (refl, (refl, tt)))) (inr refl)

-- An end that sends nothing more, as after a half-close, gets no reply: the goroutine that reads from it
-- closes both connections.
half_closed : (run (go_right fine ∷ go_left fine ∷ []) (start [] reply)).left.written ≡ []
unfolding run step conn_forward read write after_read leave
half_closed = refl

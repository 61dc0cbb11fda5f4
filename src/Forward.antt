-- ===== src/Forward.antt =====
-- routine.go: `connForward`, and the two goroutines of `serve` in http.go, which do the same: each
-- copies one way between two connections, and closes both when it ends. They take turns in any order.
pub mod Order
pub mod Turns
pub mod Ends
pub mod Complete
mod Tests
use model_lib.Base.{ℕ, Bool, true, false, ◌||◌, List, [], ◌∷◌, ◌++◌, if◌then◌else◌, Bytes, take}

-- A connection: what its reads return until the other end closes, what was written to it, and whether it
-- was closed here.
pub record Conn : Type 0 where
  pub incoming : List Bytes
  pub written : Bytes
  pub closed : Bool

-- Where io.Copy is: in Read, or in Write with what was read; `ended` is behind the deferred calls.
pub data Copier : Type 0 where
  in_read ended : Copier
  in_write : Bytes → Copier

-- What one goroutine works on.
pub record Way : Type 0 where
  pub from : Conn
  pub to : Conn
  pub copier : Copier

-- How the call ends. A Write that fails may have written some bytes.
pub data Outcome : Type 0 where
  fine : Outcome
  failed : ℕ → Outcome

abbrev pub close : Conn → Conn
close c = record c { closed = true }

-- The deferred calls: both connections are closed.
pub leave : Way → Way
leave w = record w { from = close w.from; to = close w.to; copier = ended }

-- A Read without data is followed by another; at the end of the stream the copying ends.
pub after_read : List Bytes → Way → Way
after_read [] w = leave w
after_read ([] ∷ rest) w = record w { from = record w.from { incoming = rest } }
after_read ((c ∷ chunk) ∷ rest) w = record w {
  from = record w.from { incoming = rest };
  copier = in_write (c ∷ chunk);
}

abbrev pub put : Bytes → Way → Way
put chunk w = record w { to = record w.to { written = w.to.written ++ chunk } }

-- A call on a connection that was closed here fails at once.
pub write : Outcome → Bytes → Way → Way
write (failed n) chunk w = leave (if w.to.closed then w else put (take n chunk) w)
write fine chunk w = if w.to.closed then leave w else record (put chunk w) { copier = in_read }

pub read : Outcome → Way → Way
read (failed n) w = leave w
read fine w = if w.from.closed then leave w else after_read w.from.incoming w

-- A turn of the goroutine: one call of io.Copy with what follows it.
pub conn_forward : Copier → Outcome → Way → Way
conn_forward ended o w = w
conn_forward in_read o w = read o w
conn_forward (in_write chunk) o w = write o chunk w

-- Two connections with a goroutine each way.
pub record Tunnel : Type 0 where
  pub left : Conn
  pub right : Conn
  pub rightward : Copier
  pub leftward : Copier

abbrev pub way_right : Tunnel → Way
way_right t = record { from = t.left; to = t.right; copier = t.rightward }

abbrev pub way_left : Tunnel → Way
way_left t = record { from = t.right; to = t.left; copier = t.leftward }

pub data Turn : Type 0 where
  go_right go_left : Outcome → Turn

pub step : Turn → Tunnel → Tunnel
step (go_right o) t =
    let w = conn_forward t.rightward o (way_right t) in
    record t { left = w.from; right = w.to; rightward = w.copier }
step (go_left o) t =
    let w = conn_forward t.leftward o (way_left t) in
    record t { right = w.from; left = w.to; leftward = w.copier }

-- A run is any sequence of turns.
pub run : List Turn → Tunnel → Tunnel
run [] t = t
run (turn ∷ turns) t = run turns (step turn t)

-- Both goroutines have been started, on connections that are open.
abbrev pub start : List Bytes → List Bytes → Tunnel
start from_left from_right = record {
  left = record { incoming = from_left; written = []; closed = false };
  right = record { incoming = from_right; written = []; closed = false };
  rightward = in_read;
  leftward = in_read;
}

-- ===== src/Udp/Sweep.antt =====
-- What the periodic cleanup does to the table and to the sessions.
use model_lib.Base.{
  ℕ, Bool, true, false, [], ◌∷◌, if◌then◌else◌, ◌≡◌, ◌↔◌, ◌⊎◌, inl, refl, arith, Bytes,
}
use model_lib.Udp.{UdpSession, Table, modify, close_session_chan, expired, sweep}
use model_lib.Udp.Table.{In}

-- Closing a session leaves its times alone.
expired-modify :
    (now duration id i : ℕ) (heap : ℕ → UdpSession)
    → expired now duration (modify id close_session_chan heap i) ≡ expired now duration (heap i)
expired-modify now duration id i heap = ground arith

abbrev close_if : Bool → ℕ → (ℕ → UdpSession) → ℕ → UdpSession
close_if dead id heap = if dead then modify id close_session_chan heap else heap

expired-close_if :
    (dead : Bool) (now duration id i : ℕ) (heap : ℕ → UdpSession)
    → expired now duration (close_if dead id heap i) ≡ expired now duration (heap i)
expired-close_if true now duration id i heap = expired-modify now duration id i heap
expired-close_if false now duration id i heap = refl

-- A session stays in the table exactly if it has been active recently enough.
pub In-sweep :
    (now duration : ℕ) (table : Table) (heap : ℕ → UdpSession) (src : Bytes) (i : ℕ)
    → In src i (sweep now duration table heap).0
      ↔ (In src i table × (expired now duration (heap i) ≡ false))
unfolding sweep
In-sweep now duration [] heap src i = ((λ h. absurd h), λ h. h.0)
In-sweep now duration ((key, id) ∷ table) heap src i = ground (
  arith,
  In-sweep now duration table (close_if (expired now duration (heap id)) id heap) src i,
  expired-close_if (expired now duration (heap id)) now duration id i heap,
)

-- What becomes of a session.
pub sweep-cases :
    (now duration : ℕ) (table : Table) (heap : ℕ → UdpSession) (i : ℕ)
    → ((sweep now duration table heap).1 i ≡ heap i)
      ⊎ (((sweep now duration table heap).1 i ≡ close_session_chan (heap i))
          × (expired now duration (heap i) ≡ true))
unfolding sweep
sweep-cases now duration [] heap i = inl refl
sweep-cases now duration ((key, id) ∷ table) heap i = ground (
  arith,
  sweep-cases now duration table (close_if (expired now duration (heap id)) id heap) i,
  expired-close_if (expired now duration (heap id)) now duration id i heap,
)

-- The sessions that are taken out are told to stop.
pub sweep-closes :
    (now duration : ℕ) (table : Table) (heap : ℕ → UdpSession) (src : Bytes) (i : ℕ)
    → In src i table
    → expired now duration (heap i) ≡ true
    → ((sweep now duration table heap).1 i).closed ≡ true
unfolding sweep
sweep-closes now duration [] heap src i h e = absurd h
sweep-closes now duration ((key, id) ∷ table) heap src i h e = ground (
  arith,
  sweep-closes now duration table (close_if (expired now duration (heap id)) id heap) src i,
  sweep-cases now duration table (close_if (expired now duration (heap id)) id heap) i,
  expired-close_if (expired now duration (heap id)) now duration id i heap,
)

-- ===== src/Udp/Packets/Sent.antt =====
-- udp_proxy.go: the packets of the clients, on the connections of their sessions.
use model_lib.Base.{
  ◌⊎◌, inl, inr, ℕ, Bool, true, false, Option, none, some, List, [], ◌∷◌, ◌++◌, ◌≡◌, if◌then◌else◌,
  refl, sym, ap, ◌∙◌, Bytes, equal, Error, Result, ok, err, subst,
}
use model_lib.Udp.{MainLoop, listening, holding, State, TunnelSettings, forward, read, received}
use model_lib.Udp.Invariant.{IsValid}
use model_lib.Udp.Reach.{Reachable-IsValid}
use model_lib.Udp.Packets.{
  to_remote, from_remote, Traffic, heard, forward_packet, answer, no_traffic, Carried, untouched,
  turned, Carried-Reachable,
}
use model_lib.Udp.Packets.Kept.{Quiet, Quiet-read, Got, session, no_session, forward-Kept}
use model_lib.Udp.Packets.Effect.{Effect, took, gave, silent, brought, Turn-Effect}
use model_lib.Udp.Packets.Written.{
  taken, attempts, handed, written, HasFailed, written-packets, packets-cons, held_for, Below,
  Below-≤, handed-Kept,
}

abbrev held_number : MainLoop → ℕ
held_number listening = 0
held_number (holding id) = id

record Sent (t : Traffic) : Type 0 where
  below : Below t.state.next t.trace
  own : (id : ℕ) → t.state.main ≡ holding id → (t.state.heap id).src ≡ t.client
  all :
      (src : Bytes)
      → taken src t.trace
        ≡ held_for t.state.main t.client t.buf src ++ handed t.state.heap src t.trace

Sent-no_traffic : Sent no_traffic
Sent-no_traffic = record { below = tt; own = λ id e. cc; all = λ src. refl }

-- A turn that neither the main loop takes nor writes to a connection.
Sent-Quiet : (t : Traffic) (s : State) → Quiet t.state s → Sent t → Sent (record t { state = s })
Sent-Quiet t s q sent = record {
  below = subst (λ n. Below n t.trace) (sym q.next) sent.below;
  own = λ id e. (q.kept id).0 ∙ sent.own id (sym q.main ∙ e);
  all = λ src. sent.all src ∙ (λ i.
      held_for (sym q.main i) t.client t.buf src
      ++ sym
          (handed-Kept t.state.heap s.heap t.state.next src t.trace (λ j lt. q.kept j) sent.below)
          i);
}

-- The events of a Read with data are none of those that count here.
Sent-answer :
    (t : Traffic) (resolve : Option Error) (id : ℕ) (src packet : Bytes)
    → Sent t
    → Sent (record t { trace = answer resolve id src packet (from_remote id packet ∷ t.trace) })
Sent-answer t none id src packet sent = record {
  below = sent.below;
  own = sent.own;
  all = sent.all;
}
Sent-answer t (some e) id src packet sent = record {
  below = sent.below;
  own = sent.own;
  all = sent.all;
}

listening_all :
    (t : Traffic)
    → t.state.main ≡ listening
    → Sent t
    → (src : Bytes) → taken src t.trace ≡ handed t.state.heap src t.trace
listening_all t idle sent src =
    sent.all src
    ∙ ap (λ main. held_for main t.client t.buf src ++ handed t.state.heap src t.trace) idle

holding_all :
    (t : Traffic) (id : ℕ)
    → t.state.main ≡ holding id
    → Sent t
    → (src : Bytes)
    → taken src t.trace
      ≡ (if equal (t.state.heap id).src src then t.buf ∷ [] else [])
        ++ handed t.state.heap src t.trace
holding_all t id held sent src =
    sent.all src
    ∙ ap (λ main. held_for main t.client t.buf src ++ handed t.state.heap src t.trace) held
    ∙ ap
        (λ client. (if equal client src then t.buf ∷ [] else []) ++ handed t.state.heap src t.trace)
        (sym (sent.own id held))

if-cons :
    (b : Bool) (x : Bytes) (l : List Bytes)
    → (if b then x ∷ [] else []) ++ l ≡ (if b then x ∷ l else l)
if-cons true x l = refl
if-cons false x l = refl

Sent-Got :
    (t : Traffic) (s : State) (src packet : Bytes) (r : Result ℕ)
    → t.state.main ≡ listening
    → Got src t.state s r
    → Sent t
    → Sent (record { state = s; client = src; buf = packet; trace = heard src packet r ∷ t.trace })
Sent-Got t s src packet (ok _) idle (session id grows held key kept) sent = record {
  below = Below-≤ t.state.next s.next t.trace grows sent.below;
  own = λ i e. subst (λ j. (s.heap j).src ≡ src) (ap held_number (sym held ∙ e)) key;
  all = λ to.
      ap (λ l. if equal src to then packet ∷ l else l)
        (listening_all t idle sent to
          ∙ sym (handed-Kept t.state.heap s.heap t.state.next to t.trace kept sent.below))
      ∙ sym (if-cons (equal src to) packet (handed s.heap to t.trace))
      ∙ ap (λ main. held_for main src packet to ++ handed s.heap to t.trace) (sym held);
}
Sent-Got t s src packet (err _) idle (no_session e same) sent = record {
  below = subst (λ n. Below n t.trace) (ap (λ (x : State). x.next) (sym same)) sent.below;
  own = λ i held. cc (sym (ap (λ (x : State). x.main) same ∙ idle) ∙ held);
  all = λ key.
      listening_all t idle sent key
      ∙ (λ i. held_for (sym idle i) src packet key ++ handed t.state.heap key t.trace)
      ∙ ap (λ (x : State). held_for x.main src packet key ++ handed x.heap key t.trace) (sym same);
}

Sent-forward :
    (now : ℕ) (write : Option Error) (id : ℕ) (t : Traffic)
    → IsValid t.state
    → t.state.main ≡ holding id
    → Sent t
    → Sent (forward_packet now write id t)
unfolding forward
Sent-forward now write id t v held sent = record {
  below = (v.held id held, sent.below);
  own = λ i e. cc;
  all = λ src.
      holding_all t id held sent src
      ∙ if-cons (equal (t.state.heap id).src src) t.buf (handed t.state.heap src t.trace)
      ∙ packets-cons (equal (t.state.heap id).src src) write t.buf
          (attempts t.state.heap src t.trace)
      ∙ sym (
          handed-Kept t.state.heap (forward now id t.state).heap t.state.next src
            (to_remote id write t.buf ∷ t.trace) (λ i below. forward-Kept now id t.state i)
            (v.held id held, sent.below));
}

Sent-Effect : {t t' : Traffic} → IsValid t.state → Effect t t' → Sent t → Sent t'
Sent-Effect {t = t} v (took src packet s r idle got e) sent =
    subst Sent (sym e) (Sent-Got t s src packet r idle got sent)
Sent-Effect {t = t} v (gave now write id held e) sent =
    subst Sent (sym e) (Sent-forward now write id t v held sent)
Sent-Effect {t = t} v (silent s q e) sent = subst Sent (sym e) (Sent-Quiet t s q sent)
Sent-Effect {t = t} v (brought now packet resolve write id below place e) sent =
    subst Sent (sym e) (
      Sent-Quiet
        (record t {
          trace = answer resolve id (t.state.heap id).src packet (from_remote id packet ∷ t.trace);
        })
        (read now (received resolve write) id t.state)
        (Quiet-read now (received resolve write) id t.state place)
        (Sent-answer t resolve id (t.state.heap id).src packet sent))

Carried-Sent : {settings : TunnelSettings} {t : Traffic} → Carried settings t → Sent t
Carried-Sent untouched = Sent-no_traffic
Carried-Sent (turned c turn) =
    let v = Reachable-IsValid (Carried-Reachable c) in
    Sent-Effect v (Turn-Effect v turn) (Carried-Sent c)

-- After any sequence of turns: what was handed to Write on the connections of the sessions of a client,
-- together with the packet that the main loop holds for it, is what the client has sent in its packets for
-- which there was a session, each packet once, in their order, and nothing of another client. A packet
-- whose Write fails, as on a connection that was closed, is lost; if no Write has failed, all of them were
-- written, but the one that is held.
pub taken-written :
    {settings : TunnelSettings} {t : Traffic}
    → Carried settings t
    → (src : Bytes)
    → (taken src t.trace
        ≡ held_for t.state.main t.client t.buf src ++ handed t.state.heap src t.trace)
      × (HasFailed (attempts t.state.heap src t.trace)
          ⊎ (taken src t.trace
              ≡ held_for t.state.main t.client t.buf src
                ++ written (attempts t.state.heap src t.trace)))
taken-written {t = t} c src =
    let all = (Carried-Sent c).all src in
    (
      all,
      elim (written-packets (attempts t.state.heap src t.trace)) [
        | inl lost ↦ inl lost
        | inr same ↦ inr (all ∙ ap (λ l. held_for t.state.main t.client t.buf src ++ l) (sym same))
      ],
    )

-- ===== src/Udp/Finish.antt =====
-- udp_proxy.go: the end of a session.
use model_lib.Base.{
  ℕ, ◌<◌, true, false, Bool-cases, some, Option-cases, ◌==◌, ◌≡◌, ◌≢◌, ◌↔◌, inl, inr, refl, sym, ap,
  ◌∙◌, arith, Bytes, subst,
}
use model_lib.Udp.{UdpSession, State, find, delete, remove_session, finish}
use model_lib.Udp.Table.{In, find-In, find-none, In-delete}
use model_lib.Udp.Invariant.{running, IsValid}

-- `finish` takes the session out of the table, ends it, and leaves the others alone.
pub record Finished (id : ℕ) (s s' : State) : Type 0 where
  pub next : s'.next ≡ s.next
  pub main : s'.main ≡ s.main
  pub table : (src : Bytes) (i : ℕ) → In src i s'.table ↔ (In src i s.table × (i ≢ id))
  pub self : (running (s'.heap id).reader ≡ false) × ((s'.heap id).connected ≡ false)
  pub others : (i : ℕ) → i ≢ id → s'.heap i ≡ s.heap i

-- Behind the key of a session stands no other.
listed_key :
    (s : State) (src : Bytes) (id : ℕ)
    → IsValid s
    → In src id s.table
    → In (s.heap id).src id s.table
listed_key s src id v h = subst (λ k. In k id s.table) (sym (v.listed src id h).1) h

In-removed :
    (s : State) (id : ℕ)
    → IsValid s
    → In (s.heap id).src id s.table
    → (src : Bytes) (i : ℕ)
    → In src i (delete s.table (s.heap id).src) ↔ (In src i s.table × (i ≢ id))
In-removed s id v stands src i =
    let removed = In-delete s.table (s.heap id).src src i in
    (
      (λ h.
          let (was, apart) = removed.0 h in
          (was, λ e. apart (sym (v.listed src id (subst (λ j. In src j s.table) e was)).1))),
      λ h.
          removed.1
            (h.0, λ e. h.1 (v.unique src i id h.0 (subst (λ k. In k id s.table) (sym e) stands))),
    )

In-kept :
    (s : State) (id current : ℕ)
    → IsValid s
    → find s.table (s.heap id).src ≡ some current
    → (current == id) ≡ false
    → (src : Bytes) (i : ℕ) → In src i s.table ↔ (In src i s.table × (i ≢ id))
In-kept s id current v found other src i = (
  (λ h. (
    h,
    λ e.
        let stands = listed_key s src id v (subst (λ j. In src j s.table) e h) in
        let same =
          v.unique (s.heap id).src current id (find-In s.table (s.heap id).src current found)
            stands in
        ground arith,
  )),
  λ h. h.0,
)

pub finish-Finished : (id : ℕ) (s : State) → IsValid s → Finished id s (finish id s)
unfolding finish remove_session
finish-Finished id s v = elim (Option-cases (find s.table (s.heap id).src)) [
  | inl missing ↦
      rw (finish, remove_session, missing)
        (record {
          next = refl;
          main = refl;
          table =
              λ src i. ground (arith, v.listed src i, find-none s.table (s.heap id).src id missing);
          self = ground arith;
          others = λ i ne. ground arith;
        })
  | inr (current, found) ↦ elim (Bool-cases (current == id)) [
    | inl same ↦
        rw (finish, remove_session, found, same)
          (record {
            next = refl;
            main = refl;
            table = In-removed s id v (
                subst (λ j. In (s.heap id).src j s.table) (ground arith)
                  (find-In s.table (s.heap id).src current found));
            self = ground arith;
            others = λ i ne. ground arith;
          })
    | inr other ↦
        rw (finish, remove_session, found, other)
          (record {
            next = refl;
            main = refl;
            table = In-kept s id current v found other;
            self = ground arith;
            others = λ i ne. ground arith;
          })
  ]
]

Finished-owned :
    (id : ℕ) (s s' : State)
    → IsValid s
    → Finished id s s'
    → (i : ℕ) → i < s'.next
    → running (s'.heap i).reader ≡ true
    → (s'.heap i).closed ≡ false
    → In (s'.heap i).src i s'.table
Finished-owned id s s' v f i below alive open_chan =
    let apart : i ≢ id = λ e. cc (sym alive ∙ ap (λ j. running (s'.heap j).reader) e ∙ f.self.0) in
    let same = f.others i apart in
    let owned =
      v.owned i (subst (λ n. i < n) f.next below)
        (sym (ap (λ (x : UdpSession). running x.reader) same) ∙ alive)
        (sym (ap (λ (x : UdpSession). x.closed) same) ∙ open_chan) in
    (f.table (s'.heap i).src i).1
      (subst (λ (x : UdpSession). In x.src i s.table) (sym same) owned, apart)

pub IsValid-Finished : (id : ℕ) (s s' : State) → IsValid s → Finished id s s' → IsValid s'
IsValid-Finished id s s' v f = record {
  listed = λ src i h. ground (arith, v.listed src i, f.table src i, f.others i, f.next);
  unique = λ src i j h k. v.unique src i j ((f.table src i).0 h).0 ((f.table src j).0 k).0;
  owned = Finished-owned id s s' v f;
  connection = λ i below. ground (arith, v.connection i, f.self, f.others i, f.next);
  held = λ i e. ground (arith, v.held i, f.main, f.next);
}

-- ===== src/Routine/Pings/Matches.antt =====
-- routine.go: which replies are accepted.
use model_lib.Base.{ℕ, ◌+◌, ◌*◌, Bool, true, false, [], ◌∷◌, ◌≡◌, refl, arith, Bytes, equal_iff}
use model_lib.Config.Types.{Addr}
use model_lib.Routine.Pings.{
  Echo, Body, echo, raw_body, other, Ping, Verdict, accepted, refused, panics, same_echo, check_v4,
  check_v6, check_reply,
}

-- The reply is the echo of the request: for IPv4 as a message, for IPv6 as its bytes behind the
-- identifier.
abbrev pub Matches : Addr → Echo → Body → Type 0
Matches addr request body =
    (addr.is4 ≡ true → body ≡ echo request)
    × (addr.is6 ≡ true
        → (i : ℕ) × (j : ℕ) × (high : ℕ) × (low : ℕ) × (body
            ≡ raw_body (i ∷ j ∷ high ∷ low ∷ request.content))
          × (high * 256 + low ≡ request.seq))

same_echo-accepted :
    (request : Echo) (content : Bytes) (seq : ℕ)
    → same_echo request content seq ≡ accepted
    → (content ≡ request.content) × (seq ≡ request.seq)
same_echo-accepted request content seq e = (
  ground (arith, equal_iff content request.content),
  ground (arith, equal_iff content request.content),
)

check_v4-Matches :
    (b : Bool) (request : Echo) (body : Body)
    → check_v4 b request body ≡ accepted
    → b ≡ true
    → body ≡ echo request
unfolding check_v4
check_v4-Matches true request (echo r) e t =
    let (content, seq) = same_echo-accepted request r.content r.seq e in
    λ i. echo (record { seq = seq i; content = content i })
check_v4-Matches true request (raw_body content) e t = cc
check_v4-Matches true request other e t = cc
check_v4-Matches false request body e t = cc

check_v6-Matches :
    (b : Bool) (request : Echo) (body : Body)
    → check_v6 b request body ≡ accepted
    → b ≡ true
    → (i : ℕ) × (j : ℕ) × (high : ℕ) × (low : ℕ) × (body
        ≡ raw_body (i ∷ j ∷ high ∷ low ∷ request.content))
      × (high * 256 + low ≡ request.seq)
unfolding check_v6
check_v6-Matches true request (raw_body (i ∷ j ∷ high ∷ low ∷ pong)) e t =
    let (content, seq) = same_echo-accepted request pong (high * 256 + low) e in
    (i, j, high, low, (λ k. raw_body (i ∷ j ∷ high ∷ low ∷ content k)), seq)
check_v6-Matches true request (raw_body (i ∷ j ∷ high ∷ [])) e t = cc
check_v6-Matches true request (raw_body (i ∷ j ∷ [])) e t = cc
check_v6-Matches true request (raw_body (i ∷ [])) e t = cc
check_v6-Matches true request (raw_body []) e t = cc
check_v6-Matches true request (echo r) e t = cc
check_v6-Matches true request other e t = cc
check_v6-Matches false request body e t = cc

Verdict-cases :
    (v : Verdict) (next : Verdict)
    → (elim v as (λ x. Verdict) [ accepted ↦ next | refused ↦ refused | panics ↦ panics ])
      ≡ accepted
    → (v ≡ accepted) × (next ≡ accepted)
Verdict-cases accepted next e = (refl, e)
Verdict-cases refused next e = cc
Verdict-cases panics next e = cc

pub check_reply-Matches :
    (ping : Ping) (body : Body)
    → check_reply ping body ≡ accepted
    → Matches ping.addr ping.request body
unfolding check_reply
check_reply-Matches ping body e =
    let (v4, v6) =
      Verdict-cases (check_v4 ping.addr.is4 ping.request body)
        (check_v6 ping.addr.is6 ping.request body) e in
    (
      check_v4-Matches ping.addr.is4 ping.request body v4,
      check_v6-Matches ping.addr.is6 ping.request body v6,
    )

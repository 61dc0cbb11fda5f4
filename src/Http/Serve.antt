-- ===== src/Http/Serve.antt =====
-- http.go: what `serve` does to the two connections.
use model_lib.Base.{
  ℕ, ◌+◌, Bool-cases, Option, none, some, Option-cases, List, [], ◌∷◌, ◌≡◌, ◌≢◌, inl, inr, refl,
  sym, ap, ◌∙◌, arith, Bytes, codes, length, equal, Error, Result-cases, if◌then◌else◌, ok, err,
}
use model_lib.Http.{
  HttpServer, Request, authenticate, dial_address, Action, respond, dial, write_established,
  write_request, close_peer, copy_both, Answers, after_dial, dial_and_write, handle_conn, handle,
  and_copy, serve_request, serve,
}
use model_lib.Http.Auth.{Authorised, authenticate_iff}

-- The addresses that are dialled.
unfoldable pub dialled : List Action → List Bytes
dialled [] = []
dialled (dial addr ∷ acts) = addr ∷ dialled acts
dialled (respond r ∷ acts) = dialled acts
dialled (write_established ∷ acts) = dialled acts
dialled (write_request ∷ acts) = dialled acts
dialled (close_peer ∷ acts) = dialled acts
dialled (copy_both ∷ acts) = dialled acts

-- How often the peer is disposed of: it is closed, or given to the two goroutines, which close it.
unfoldable pub disposals : List Action → ℕ
disposals [] = 0
disposals (close_peer ∷ acts) = 1 + disposals acts
disposals (copy_both ∷ acts) = 1 + disposals acts
disposals (respond r ∷ acts) = disposals acts
disposals (dial addr ∷ acts) = disposals acts
disposals (write_established ∷ acts) = disposals acts
disposals (write_request ∷ acts) = disposals acts

-- How often a peer is opened: the dials, if they succeed.
abbrev pub opened : Option Error → List Action → ℕ
opened (some e) acts = 0
opened none acts = length (dialled acts)

-- The port of a request without one.
abbrev pub default_port : Request → Bytes
default_port req = if equal req.method (codes "CONNECT") then codes "443" else codes "80"

-- The peers of a list of actions are the one that is dialled, and it is disposed of if the dial succeeds.
abbrev DisposedOnce : Answers → Bytes → List Action → Type 0
DisposedOnce answers addr acts =
    (dialled acts ≡ addr ∷ []) × (disposals acts ≡ opened answers.dial_error acts)

dial_and_write-established :
    (answers : Answers) (addr : Bytes)
    → DisposedOnce answers addr (and_copy (dial_and_write answers addr write_established))
unfolding dialled disposals dial_and_write after_dial
dial_and_write-established answers addr = ground arith

dial_and_write-request :
    (answers : Answers) (addr : Bytes)
    → DisposedOnce answers addr (and_copy (dial_and_write answers addr write_request))
unfolding dialled disposals dial_and_write after_dial
dial_and_write-request answers addr = ground arith

serve_request-refused :
    (s : HttpServer) (answers : Answers) (req : Request) (e : Error)
    → (authenticate s req).1 ≡ some e
    → (dialled (serve_request s answers req) ≡ []) × (disposals (serve_request s answers req) ≡ 0)
unfolding serve_request dialled disposals
serve_request-refused s answers req e refused =
    (rw (serve_request, refused), rw (serve_request, refused))

serve_request-passed :
    (s : HttpServer) (answers : Answers) (req : Request)
    → (authenticate s req).1 ≡ none
    → DisposedOnce answers (dial_address req.host (default_port req)) (serve_request s answers req)
unfolding serve_request handle_conn handle
serve_request-passed s answers req passed = elim (Bool-cases (equal req.method (codes "CONNECT"))) [
  | inl connect ↦
      rw (serve_request, passed, connect)
        (dial_and_write-established answers (dial_address req.host (codes "443")))
  | inr other ↦
      rw (serve_request, passed, other)
        (dial_and_write-request answers (dial_address req.host (codes "80")))
]

opened-none : (o : Option Error) (acts : List Action) → dialled acts ≡ [] → opened o acts ≡ 0
opened-none none acts h = ap length h
opened-none (some e) acts h = refl

disposals-serve_request :
    (s : HttpServer) (answers : Answers) (req : Request)
    → disposals (serve_request s answers req)
      ≡ opened answers.dial_error (serve_request s answers req)
disposals-serve_request s answers req = elim (Option-cases (authenticate s req).1) [
  | inl passed ↦ (serve_request-passed s answers req passed).1
  | inr (e, refused) ↦
      let (undialled, kept) = serve_request-refused s answers req e refused in
      kept ∙ sym (opened-none answers.dial_error (serve_request s answers req) undialled)
]

serve-ok :
    (s : HttpServer) (answers : Answers) (req : Request)
    → answers.request ≡ ok req
    → serve s answers ≡ serve_request s answers req
unfolding serve
serve-ok s answers req e =
    ap (λ r. elim r as (λ x. List Action) [ err bad ↦ [] | ok q ↦ serve_request s answers q ]) e

serve-err :
    (s : HttpServer) (answers : Answers) (bad : Error)
    → answers.request ≡ err bad
    → serve s answers ≡ []
unfolding serve
serve-err s answers bad e =
    ap (λ r. elim r as (λ x. List Action) [ err b ↦ [] | ok q ↦ serve_request s answers q ]) e

-- An address is dialled only for a request that was read and may pass, and then it is one address: the
-- host of the request, with the default port of the request's method if it names none.
pub serve-Authorised :
    (s : HttpServer) (answers : Answers)
    → dialled (serve s answers) ≢ []
    → (req : Request) × (answers.request ≡ ok req)
      × Authorised s req
      × (dialled (serve s answers) ≡ dial_address req.host (default_port req) ∷ [])
unfolding dialled
serve-Authorised s answers h = elim (Result-cases answers.request) [
  | inr (bad, e) ↦ absurd (h (ap dialled (serve-err s answers bad e)))
  | inl (req, e) ↦ elim (Option-cases (authenticate s req).1) [
    | inr (bad, refused) ↦ absurd (
        h (
          ap dialled (serve-ok s answers req e)
          ∙ (serve_request-refused s answers req bad refused).0))
    | inl passed ↦ (
      req,
      e,
      (authenticate_iff s req).0 passed,
      ap dialled (serve-ok s answers req e) ∙ (serve_request-passed s answers req passed).0,
    )
  ]
]

-- Whatever the request, the dial and the write answer, each peer that is opened is disposed of exactly
-- once: it is closed, or it is given to the goroutines that copy and close.
pub serve-disposals :
    (s : HttpServer) (answers : Answers)
    → disposals (serve s answers) ≡ opened answers.dial_error (serve s answers)
unfolding dialled disposals
serve-disposals s answers = elim (Result-cases answers.request) [
  | inr (bad, e) ↦ rw (serve-err s answers bad e) (sym (opened-none answers.dial_error [] refl))
  | inl (req, e) ↦ rw (serve-ok s answers req e) (disposals-serve_request s answers req)
]

-- ===== src/Http/Listen.antt =====
-- http.go: `ListenAndServe`, and the routine of routine.go that calls it.
use model_lib.Base.{
  Option, none, some, List, [], ◌∷◌, ◌≡◌, ◌⊎◌, codes, Error, wrapped, Result, ok, err,
}
use model_lib.Config.Types.{HttpConfig}
use model_lib.Http.{HttpServer, Request, new_server, dial_address, Action, Answers, serve}
use model_lib.Http.Auth.{Authorised}
use model_lib.Http.Serve.{dialled, default_port, disposals, opened}

-- The actions of the goroutine of each connection, and the error that is returned.
pub record Listened : Type 0 where
  pub goroutines : List (List Action)
  pub result : Option Error

abbrev listen_failed : Error → Error
listen_failed e = wrapped (codes "listen tcp failed") e

abbrev pub accept_failed : Error → Error
accept_failed e = wrapped (codes "accept request failed") e

-- The loop over Accept. The list ends with the call that still waits.
pub accept_loop : HttpServer → List (Result Answers) → Listened
accept_loop s [] = record { goroutines = []; result = none }
accept_loop s (err e ∷ accepts) = record { goroutines = []; result = some (accept_failed e) }
accept_loop s (ok answers ∷ accepts) =
    let rest = accept_loop s accepts in
    record rest { goroutines = serve s answers ∷ rest.goroutines }

pub listen_and_serve : HttpServer → Option Error → List (Result Answers) → Listened
unfolding accept_loop
listen_and_serve s listen_error accepts = elim listen_error [
  | some e ↦ record { goroutines = []; result = some (listen_failed e) }
  | none ↦ accept_loop s accepts
]

-- The error that is returned ends the program.
pub spawn_http : HttpConfig → Option Error → List (Result Answers) → Listened
unfolding listen_and_serve
spawn_http config listen_error accepts = listen_and_serve (new_server config) listen_error accepts

-- A connection of the proxy: an address is dialled only for a request that was read and may pass, and it
-- is the address of that request; each peer that is opened is disposed of once.
abbrev pub Proxied : HttpServer → Answers → List Action → Type 0
Proxied s answers acts =
    ((dialled acts ≡ [])
      ⊎ ((req : Request) × (answers.request ≡ ok req)
          × Authorised s req
          × (dialled acts ≡ dial_address req.host (default_port req) ∷ [])))
    × (disposals acts ≡ opened answers.dial_error acts)

-- ===== src/Http.antt =====
-- http.go and util.go: the HTTP proxy. A connection is what the code does with it, a list of actions.
pub mod Auth
pub mod Serve
pub mod Listen
mod Tests
use Prim.Native.Nat.{bit_and}
use model_lib.Base.{
  ℕ, Bool, true, false, not, ◌||◌, Option, none, some, List, [], ◌∷◌, ◌++◌, ◌==◌, if◌then◌else◌,
  Bytes, codes, length, equal, Error, message, wrapped, Result, ok, err,
}
use model_lib.Strings.{trim_prefix, split_once}
use model_lib.Strconv.{format_uint}
use model_lib.Net.{has_char, join_host_port}
use model_lib.Encoding.{decode_base64}
use model_lib.Config.Types.{HttpConfig}

-- routine.go: `CredentialValidator`
pub record CredentialValidator : Type 0 where
  pub username : Bytes
  pub password : Bytes

-- subtle.ConstantTimeCompare
abbrev constant_time_compare : Bytes → Bytes → ℕ
constant_time_compare a b = if equal a b then 1 else 0

unfoldable pub valid : CredentialValidator → Bytes → Bytes → Bool
valid c username password =
    let u = constant_time_compare c.username username in
    let p = constant_time_compare c.password password in bit_and u p == 1

pub record HttpServer : Type 0 where
  pub config : HttpConfig
  pub auth : CredentialValidator
  pub auth_required : Bool

-- The server that `SpawnRoutine` of routine.go makes of a configuration.
unfoldable pub new_server : HttpConfig → HttpServer
new_server config = record {
  config = config;
  auth = record { username = config.username; password = config.password };
  auth_required = not (length config.username == 0) || not (length config.password == 0);
}

-- What the code reads of a request; a missing header is the empty text.
pub record Request : Type 0 where
  pub method : Bytes
  pub host : Bytes
  pub proto : Bytes
  pub proxy_authorization : Bytes

abbrev pub status_bad : Bytes
status_bad = codes "username and password not matching"

-- The last test, on what was decoded.
check_pair : HttpServer → Bytes × Option Bytes → ℕ × Option Error
check_pair s (user, none) = (411, some (message (codes "username and password format invalid")))
check_pair s (user, some password) =
    if valid s.auth user password then (0, none) else (401, some (message status_bad))

check_decoded : HttpServer → Option Bytes → ℕ × Option Error
unfolding check_pair
check_decoded s none = (406, some (message (codes "decode username and password failed")))
check_decoded s (some str) = check_pair s (split_once str b':')

-- The status code and the error. The error of the decoder is not told from others.
unfoldable pub authenticate : HttpServer → Request → ℕ × Option Error
unfolding check_decoded
authenticate s req =
    if not s.auth_required
    then (0, none)
    else if length req.proxy_authorization == 0
    then (407, some (message (codes "Proxy Authentication Required")))
    else check_decoded s (decode_base64 (trim_prefix req.proxy_authorization (codes "Basic ")))

-- The address that is dialled: the host of the request, with the default port if it has no colon.
unfoldable pub dial_address : Bytes → Bytes → Bytes
unfolding has_char
dial_address host port = if has_char host b':' then host else join_host_port host port

-- http.StatusText, of the codes that `authenticate` returns.
abbrev status_text : ℕ → Bytes
status_text code =
    if code == 407
    then codes "Proxy Authentication Required"
    else if code == 406
    then codes "Not Acceptable"
    else if code == 411
    then codes "Length Required"
    else if code == 401
    then codes "Unauthorized"
    else []

pub record Response : Type 0 where
  pub status_code : ℕ
  pub status : Bytes
  pub proto : Bytes
  pub body : Bytes
  pub proxy_authenticate : Option Bytes

-- util.go
unfoldable pub response_with : Request → ℕ → Response
response_with req code = record {
  status_code = code;
  status = status_text code;
  proto = req.proto;
  body =
      codes "wireproxy:"
      ++ codes " "
      ++ req.proto
      ++ codes " "
      ++ format_uint code
      ++ codes " "
      ++ status_text code
      ++ codes "\r\n";
  proxy_authenticate = none;
}

-- What the code does: on the client's connection, on the peer's, or on both. `copy_both` starts the
-- two goroutines, each of which closes both connections when it ends.
pub data Action : Type 0 where
  respond : Response → Action
  dial : Bytes → Action
  write_established : Action
  write_request : Action
  close_peer : Action
  copy_both : Action

-- What the two connections answer: the request that is read, the error of the dial, and that of the
-- write that follows it.
pub record Answers : Type 0 where
  pub request : Result Request
  pub dial_error : Option Error
  pub write_error : Option Error

-- `handleConn` and `handle` dial, write, and close the peer if the write fails. The result says
-- whether there is a peer to copy from.
after_dial : Option Error → Action → List Action × Bool
after_dial none act = (act ∷ [], true)
after_dial (some e) act = (act ∷ close_peer ∷ [], false)

dial_and_write : Answers → Bytes → Action → List Action × Bool
unfolding after_dial
dial_and_write answers addr act = elim answers.dial_error [
  | some e ↦ (dial addr ∷ [], false)
  | none ↦
      (dial addr ∷ (after_dial answers.write_error act).0, (after_dial answers.write_error act).1)
]

unfoldable pub handle_conn : Answers → Request → List Action × Bool
unfolding dial_and_write
handle_conn answers req =
    dial_and_write answers (dial_address req.host (codes "443")) write_established

unfoldable pub handle : Answers → Request → List Action × Bool
unfolding dial_and_write
handle answers req = dial_and_write answers (dial_address req.host (codes "80")) write_request

-- `if code == http.StatusProxyAuthRequired { resp.Header.Set(…) }`
abbrev refusal : Request → ℕ → Response
refusal req code =
    if code == 407
    then record (response_with req code) {
      proxy_authenticate = some (codes "Basic realm=\"Proxy\"");
    }
    else response_with req code

abbrev pub and_copy : List Action × Bool → List Action
and_copy (acts, true) = acts ++ copy_both ∷ []
and_copy (acts, false) = acts

serve_request : HttpServer → Answers → Request → List Action
unfolding handle_conn handle response_with
serve_request s answers req = elim (authenticate s req).1 [
  | some e ↦ respond (refusal req (authenticate s req).0) ∷ []
  | none ↦
      and_copy
        (if equal req.method (codes "CONNECT") then handle_conn answers req else handle answers req)
]

unfoldable pub serve : HttpServer → Answers → List Action
unfolding serve_request
serve s answers = elim answers.request [ err e ↦ [] | ok req ↦ serve_request s answers req ]

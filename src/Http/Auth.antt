-- ===== src/Http/Auth.antt =====
-- http.go: `authenticate`.
use Prim.Native.Nat.{bit_and}
use model_lib.Base.{
  ℕ, Bool, true, false, Bool-cases, Option, none, some, [], ◌∷◌, ◌++◌, ◌≡◌, ◌≢◌, ◌↔◌, ◌⊎◌, inl, inr,
  refl, sym, ap, ◌∙◌, arith, ◌==◌, if◌then◌else◌, Bytes, codes, length, equal, equal_iff, Error,
}
use model_lib.Strings.{has_prefix, trim_prefix, split_once}
use model_lib.Strings.Split.{Lacks, split_once-append, split_once-some}
use model_lib.Encoding.{decode_base64}
use model_lib.Encoding.RoundTrip.{AllBytes, encode_base64, decode_base64-encode_base64}
use model_lib.Http.{
  CredentialValidator, valid, HttpServer, Request, check_pair, check_decoded, authenticate,
}

-- The credentials that a request shows: `user` and `password` in the header, as `Basic` prescribes.
abbrev pub Shows : Request → Bytes → Bytes → Type 0
Shows req user password =
    (req.proxy_authorization ≢ [])
    × (decode_base64 (trim_prefix req.proxy_authorization (codes "Basic "))
        ≡ some (user ++ b':' ∷ password))

-- A request may pass: no credentials are asked for, or it shows those of the server, whose user name
-- has no colon.
abbrev pub Authorised : HttpServer → Request → Type 0
Authorised s req =
    (s.auth_required ≡ false)
    ⊎ (Shows req s.auth.username s.auth.password × Lacks b':' s.auth.username)

both_bits :
    (a b : Bool)
    → ((bit_and (if a then 1 else 0) (if b then 1 else 0) == 1) ≡ true) ↔ ((a ≡ true) × (b ≡ true))
both_bits true true = ((λ _. (refl, refl)), λ _. refl)
both_bits true false = ((λ e. cc), λ h. cc)
both_bits false true = ((λ e. cc), λ h. cc)
both_bits false false = ((λ e. cc), λ h. cc)

valid_iff :
    (c : CredentialValidator) (user password : Bytes)
    → (valid c user password ≡ true) ↔ ((c.username ≡ user) × (c.password ≡ password))
unfolding valid
valid_iff c user password =
    let bits = both_bits (equal c.username user) (equal c.password password) in
    (
      (λ e. (
        (equal_iff c.username user).0 (bits.0 e).0,
        (equal_iff c.password password).0 (bits.0 e).1,
      )),
      λ h. bits.1 ((equal_iff c.username user).1 h.0, (equal_iff c.password password).1 h.1),
    )

check_pair-none :
    (s : HttpServer) (user : Bytes) (password : Option Bytes)
    → (check_pair s (user, password)).1 ≡ none
    → (password ≡ some s.auth.password) × (user ≡ s.auth.username)
unfolding check_pair
check_pair-none s user none e = cc
check_pair-none s user (some password) e = elim (Bool-cases (valid s.auth user password)) [
  | inl ok_pair ↦
      let (same_user, same_password) = (valid_iff s.auth user password).0 ok_pair in
      (ap some (sym same_password), sym same_user)
  | inr bad ↦ cc (rw bad at e)
]

check_decoded-none :
    (s : HttpServer) (decoded : Option Bytes)
    → (check_decoded s decoded).1 ≡ none
    → (decoded ≡ some (s.auth.username ++ b':' ∷ s.auth.password)) × Lacks b':' s.auth.username
unfolding check_decoded
check_decoded-none s none e = cc
check_decoded-none s (some str) e =
    let parts = split_once str b':' in
    let (password, user) = check_pair-none s parts.0 parts.1 e in
    let (spelt, no_colon) =
      split_once-some str s.auth.username s.auth.password b':' (λ i. (user i, password i)) in
    (ap some spelt, no_colon)

none-check_decoded :
    (s : HttpServer)
    → Lacks b':' s.auth.username
    → check_decoded s (some (s.auth.username ++ b':' ∷ s.auth.password)) ≡ (0, none)
unfolding check_decoded check_pair
none-check_decoded s h =
    rw (split_once-append s.auth.username s.auth.password b':' h)
      (rw ((valid_iff s.auth s.auth.username s.auth.password).1 (refl, refl)))

length_zero : (s : Bytes) → (length s == 0) ≡ true → s ≡ []
length_zero [] e = refl
length_zero (c ∷ s) e = absurd (ground arith)

length_pos : (s : Bytes) → s ≢ [] → (length s == 0) ≡ false
length_pos [] h = absurd (h refl)
length_pos (c ∷ s) h = ground arith

length_nonempty : (s : Bytes) → (length s == 0) ≡ false → s ≢ []
length_nonempty [] h z = ground arith
length_nonempty (c ∷ s) h z = cc

authenticate-Authorised :
    (s : HttpServer) (req : Request) → (authenticate s req).1 ≡ none → Authorised s req
unfolding authenticate
authenticate-Authorised s req e = elim (Bool-cases s.auth_required) [
  | inr open_to_all ↦ inl open_to_all
  | inl asked ↦ elim (Bool-cases (length req.proxy_authorization == 0)) [
    | inl empty ↦ cc (rw (asked, empty) at e)
    | inr nonempty ↦
        let found =
          check_decoded-none s
            (decode_base64 (trim_prefix req.proxy_authorization (codes "Basic ")))
            (rw (asked, nonempty) at e) in
        inr (((λ z. absurd (length_nonempty req.proxy_authorization nonempty z)), found.0), found.1)
  ]
]

Authorised-authenticate :
    (s : HttpServer) (req : Request) → Authorised s req → (authenticate s req).1 ≡ none
unfolding authenticate
Authorised-authenticate s req (inl open_to_all) = rw open_to_all
Authorised-authenticate s req (inr (shown, no_colon)) = elim (Bool-cases s.auth_required) [
  | inr open_to_all ↦ rw open_to_all
  | inl asked ↦
      rw (asked, length_pos req.proxy_authorization shown.0, shown.1)
        (ap (λ (x : ℕ × Option Error). x.1) (none-check_decoded s no_colon))
]

-- A request passes exactly if the server asks for no credentials, or its header decodes to the user
-- name and the password of the server with a colon between them and the user name has no colon.
pub authenticate_iff :
    (s : HttpServer) (req : Request) → ((authenticate s req).1 ≡ none) ↔ Authorised s req
authenticate_iff s req = (authenticate-Authorised s req, Authorised-authenticate s req)

-- A client that sends the credentials of the server in the standard way passes, if the user name has no
-- colon.
pub authenticate-encode_base64 :
    (s : HttpServer) (req : Request)
    → AllBytes (s.auth.username ++ b':' ∷ s.auth.password)
    → Lacks b':' s.auth.username
    → req.proxy_authorization
      ≡ codes "Basic " ++ encode_base64 (s.auth.username ++ b':' ∷ s.auth.password)
    → (authenticate s req).1 ≡ none
authenticate-encode_base64 s req bytes no_colon sent = Authorised-authenticate s req (
    inr (
      (
        (λ e. cc (sym sent ∙ e)),
        ap (λ h. decode_base64 (trim_prefix h (codes "Basic "))) sent
            ∙ (unfold trim_prefix has_prefix in
                decode_base64-encode_base64 (s.auth.username ++ b':' ∷ s.auth.password) bytes),
      ),
      no_colon,
    ))

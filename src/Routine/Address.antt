-- ===== src/Routine/Address.antt =====
-- Reading an address with its port.
use model_lib.Base.{
  ℕ, ◌-◌, ◌^◌, ◌≤◌, true, false, Bool-cases, [], ◌∷◌, ◌==◌, ◌≡◌, ◌≢◌, refl, sym, ap, ◌∙◌, arith,
  inl, inr, Bytes, Result, ok, err, ◌>>=◌, bind-eq-ok,
}
use model_lib.Base.Int.{ℤ, pos, negsuc}
use model_lib.Strconv.{is_digit, parse_uint, format_uint, atoi}
use model_lib.Strconv.RoundTrip.{
  AllDigits, format_uint-AllDigits, format_uint-ne-nil, parse_uint-format_uint,
}
use model_lib.Net.{has_char, split_host_port, join_host_port}
use model_lib.Net.RoundTrip.{NoBrackets, split_host_port-join_host_port}
use model_lib.Routine.{AddressPort, port_of, parse_address_port}

-- A character that is no digit does not stand in a text of digits.
digits_lack :
    (s : Bytes) (other : ℕ) → is_digit other ≡ false → AllDigits s → has_char s other ≡ false
unfolding has_char
digits_lack [] other n d = refl
digits_lack (c ∷ s) other n d = elim (Bool-cases (c == other)) [
  | inl e ↦ let same : c ≡ other = ground arith in cc (sym d.0 ∙ ap is_digit same ∙ n)
  | inr e ↦ rw e (digits_lack s other n d.1)
]

digits-NoBrackets : (s : Bytes) → AllDigits s → NoBrackets s
unfolding is_digit
digits-NoBrackets s d = (digits_lack s b'[' refl d, digits_lack s b']' refl d)

not_sign : (c : ℕ) → is_digit c ≡ true → ((c == b'-') ≡ false) × ((c == b'+') ≡ false)
unfolding is_digit
not_sign c d = ((ground arith), ground arith)

atoi-digits :
    (s : Bytes) (n : ℕ)
    → s ≢ []
    → AllDigits s
    → parse_uint (2 ^ 63 - 1) s ≡ ok n
    → atoi s ≡ ok (pos n)
unfolding atoi
atoi-digits [] n ne d e = absurd (ne refl)
atoi-digits (c ∷ s) n ne d e =
    let (minus, plus) = not_sign c d.0 in rw (minus, plus) (ap (λ r. r >>= λ k. ok (pos k)) e)

port_of-ok :
    (name : Bytes) (port : ℕ)
    → port ≤ 65535
    → port_of name (ok (pos port)) ≡ ok (record { address = name; port = port })
unfolding port_of
port_of-ok name port le = ground arith

-- An address that JoinHostPort makes of a host without brackets and of a port up to 65535 is read back.
pub parse_address_port-join_host_port :
    (host : Bytes) (port : ℕ)
    → NoBrackets host
    → port ≤ 65535
    → parse_address_port (join_host_port host (format_uint port))
      ≡ ok (record { address = host; port = port })
unfolding parse_address_port
parse_address_port-join_host_port host port h le =
    let digits = format_uint-AllDigits port in
    ap (λ r. r >>= λ (parts : Bytes × Bytes). port_of parts.0 (atoi parts.1))
      (split_host_port-join_host_port host (format_uint port) h
        (digits-NoBrackets (format_uint port) digits)
        (unfold is_digit in digits_lack (format_uint port) b':' refl digits))
    ∙ ap (port_of host) (
        atoi-digits (format_uint port) port (format_uint-ne-nil port) digits
          (parse_uint-format_uint (2 ^ 63 - 1) port (omega arith)))
    ∙ port_of-ok host port le

port_of_bounds :
    (name : Bytes) (r : Result ℤ) {a : AddressPort}
    → port_of name r ≡ ok a
    → (a.address ≡ name) × (r ≡ ok (pos a.port)) × (a.port ≤ 65535)
unfolding port_of
port_of_bounds name (err e) h = cc
port_of_bounds name (ok (negsuc n)) h = cc
port_of_bounds name (ok (pos p)) h = ground arith

-- What is read are the host and the port that the address is made of, and the port is the number itself,
-- at most 65535.
pub parse_address_port_bounds :
    (endpoint : Bytes) {a : AddressPort}
    → parse_address_port endpoint ≡ ok a
    → (port : Bytes) × (split_host_port endpoint ≡ ok (a.address, port))
      × (atoi port ≡ ok (pos a.port))
      × (a.port ≤ 65535)
unfolding parse_address_port
parse_address_port_bounds endpoint {a} e =
    let (parts, found, e') = bind-eq-ok (split_host_port endpoint) _ e in
    let (same, number, le) = port_of_bounds parts.0 (atoi parts.1) e' in
    (parts.1, found ∙ ap (λ h. ok (h, parts.1)) (sym same), number, le)

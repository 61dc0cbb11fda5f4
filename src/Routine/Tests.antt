-- ===== src/Routine/Tests.antt =====
-- Runs of the functions of routine.go.
use model_lib.Base.{
  Each, true, false, List, [], ◌∷◌, ◌≡◌, refl, arith, codes, equal, message, ok, err, if◌then◌else◌,
  All,
}
use model_lib.Strconv.{format_uint, atoi}
use model_lib.Net.{has_char, split_host_port, join_host_port}
use model_lib.Strings.{split}
use model_lib.Config.Types.{Addr}
use model_lib.Ipc.Settings.{Setting}
use model_lib.Ipc.RoundTrip.{IsClean, read_request, text_of}
use model_lib.Routine.{
  parse_address_port, port_of, Lookups, lookup_addr, resolve_addr_with_context, redact,
}
use model_lib.Routine.Address.{parse_address_port-join_host_port}
use model_lib.Routine.Resolver.{Parses, resolve_addr-Parses}
use model_lib.Routine.Metrics.{ShownAs, read_request-redact}

parse_address_port-join_host_port_example :
    parse_address_port (join_host_port (codes "::1") (format_uint 8080))
    ≡ ok (record { address = codes "::1"; port = 8080 })
unfolding has_char
parse_address_port-join_host_port_example =
    parse_address_port-join_host_port (codes "::1") 8080 (refl, refl) (omega arith)

parse_address_port-run :
    parse_address_port (codes "host:443") ≡ ok (record { address = codes "host"; port = 443 })
unfolding parse_address_port split_host_port split port_of atoi
parse_address_port-run = refl

abbrev addr : Addr
addr = record { string = codes "10.0.0.2"; is4 = true; is6 = false }

-- The shuffle leaves the order alone.
abbrev lookups : Lookups
lookups = record {
  system_dns = false;
  lookup_host = λ name. ok [];
  lookup_context_host = λ name. ok (codes "fe80::1%a" ∷ codes "10.0.0.2" ∷ []);
  shuffle = λ l. l;
  parse_addr = λ s. if equal s (codes "10.0.0.2") then ok addr else err (message (codes "zone"));
}

resolve_addr-Parses_example :
    ((a : Addr)
      → resolve_addr_with_context lookups (codes "host") ≡ ok a
      → Parses lookups.parse_addr (codes "fe80::1%a" ∷ codes "10.0.0.2" ∷ []) a)
    × ((a : Addr)
        → Parses lookups.parse_addr (codes "fe80::1%a" ∷ codes "10.0.0.2" ∷ []) a
        → (b : Addr) × (resolve_addr_with_context lookups (codes "host") ≡ ok b))
unfolding lookup_addr
resolve_addr-Parses_example =
    resolve_addr-Parses lookups (codes "host") (codes "fe80::1%a" ∷ codes "10.0.0.2" ∷ [])
      (record { texts = λ s l. ((λ h. h), λ h. h) }) refl

abbrev settings : List Setting
settings = (codes "private_key", codes "aa") ∷ (codes "errno", codes "0") ∷ []

settings-IsClean : All IsClean settings
settings-IsClean = (
  (record {
    key_some = λ e. cc;
    key_plain = omega arith;
    key_line = omega arith;
    value_line = omega arith;
  }),
  (
    (record {
      key_some = λ e. cc;
      key_plain = omega arith;
      key_line = omega arith;
      value_line = omega arith;
    }),
    tt,
  ),
)

read_request-redact_example : Each ShownAs settings (read_request (redact (text_of settings)))
read_request-redact_example = read_request-redact settings settings-IsClean

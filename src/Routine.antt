-- ===== src/Routine.antt =====
-- routine.go: addresses with ports, the resolver, and the health service with its records of pings.
pub mod Address
pub mod Resolver
pub mod Metrics
pub mod Records
pub mod Tunnels
pub mod Pings
pub mod Socks
mod Tests
use model_lib.Base.{
  ℕ, ◌+◌, ◌-◌, ◌*◌, ◌%◌, ◌^◌, ◌≤◌, Bool, true, false, not, ◌||◌, Option, none, some, List, [], ◌∷◌,
  ◌++◌, ltb, leb, ◌==◌, if◌then◌else◌, Bytes, codes, length, equal, message, Result, ok, err, ◌>>=◌,
}
use model_lib.Base.Int.{ℤ, pos, negsuc, pos_part, neg_part, sub_ℕ, ltb_ℤ, add64}
use model_lib.Strings.{split, split_once}
use model_lib.Strconv.{atoi}
use model_lib.Net.{split_host_port}
use model_lib.Config.Types.{Addr}

pub record AddressPort : Type 0 where
  pub address : Bytes
  pub port : ℕ

abbrev pub not_numeric : Bytes
not_numeric = codes "port must be numeric"

-- The error of Atoi and a port out of range become one error.
unfoldable pub port_of : Bytes → Result ℤ → Result AddressPort
port_of name (err e) = err (message not_numeric)
port_of name (ok (negsuc n)) = err (message not_numeric)
port_of name (ok (pos port)) =
    if ltb 65535 port
    then err (message not_numeric)
    else ok (record { address = name; port = port % 2 ^ 16 })

unfoldable pub parse_address_port : Bytes → Result AddressPort
parse_address_port endpoint = do parts ← split_host_port endpoint; port_of parts.0 (atoi parts.1)

-- The two resolvers, `rand.Shuffle`, and netip.ParseAddr.
pub record Lookups : Type 0 where
  pub system_dns : Bool
  pub lookup_host : Bytes → Result (List Bytes)
  pub lookup_context_host : Bytes → Result (List Bytes)
  pub shuffle : List Bytes → List Bytes
  pub parse_addr : Bytes → Result Addr

unfoldable pub lookup_addr : Lookups → Bytes → Result (List Bytes)
lookup_addr w name = if w.system_dns then w.lookup_host name else w.lookup_context_host name

-- The loop: the first address that parses, else the last error. `last` is what the turn before left.
unfoldable pub first_addr : (Bytes → Result Addr) → Result Addr → List Bytes → Result Addr
first_addr parse last [] = last
first_addr parse last (s ∷ rest) = elim (parse s) [
  | ok a ↦ ok a
  | err e ↦ first_addr parse (err e) rest
]

-- `addr` and `err` before the loop; an empty list does not get there.
abbrev pub zero_addr : Addr
zero_addr = record { string = codes "invalid IP"; is4 = false; is6 = false }

unfoldable pub pick_addr : Lookups → Bytes → List Bytes → Result Addr
pick_addr w name addrs =
    if length addrs == 0
    then err (message (codes "no address found for: " ++ name))
    else first_addr w.parse_addr (ok zero_addr) (w.shuffle addrs)

unfoldable pub resolve_addr_with_context : Lookups → Bytes → Result Addr
resolve_addr_with_context w name = do addrs ← lookup_addr w name; pick_addr w name addrs

-- `as_slice` is netip.Addr.AsSlice.
pub resolve : Lookups → (Addr → Bytes) → Bytes → Result Bytes
resolve w as_slice name = do addr ← resolve_addr_with_context w name; ok (as_slice addr)

unfoldable pub resolve_to_addr_port : Lookups → AddressPort → Result (Addr × ℕ)
resolve_to_addr_port w endpoint = do
  addr ← resolve_addr_with_context w endpoint.address
  ok (addr, endpoint.port)

abbrev pub redacted : Bytes
redacted = codes "REDACTED"

abbrev pub is_secret : Bytes → Bool
is_secret key = equal key (codes "private_key") || equal key (codes "preshared_key")

-- One turn of the loop over the lines of the device's settings. A line without `=` is written without
-- a line break.
unfoldable pub redact_line : Bytes × Option Bytes → Bytes
redact_line (line, none) = line
redact_line (key, some value) =
    key ++ b'=' ∷ (if is_secret key then redacted else value) ++ b'\n' ∷ []

unfoldable pub redact_lines : List Bytes → Bytes
redact_lines [] = []
redact_lines (line ∷ lines) = redact_line (split_once line b'=') ++ redact_lines lines

-- The body of /metrics.
unfoldable pub redact : Bytes → Bytes
redact get = redact_lines (split get b'\n')

abbrev pub second : ℕ
second = 1000000000

-- An integer that wraps at 64 bits.
unfoldable pub wrap64 : ℤ → ℤ
wrap64 (pos n) = let r = n % 2 ^ 64 in if leb (2 ^ 63) r then sub_ℕ r (2 ^ 64) else pos r
wrap64 (negsuc n) =
    let r = (n + 1) % 2 ^ 64 in if leb r (2 ^ 63) then sub_ℕ 0 r else pos (2 ^ 64 - r)

-- `time.Duration(interval+2)*time.Second`, in nanoseconds.
unfoldable pub patience : ℤ → ℤ
patience interval =
    let n = add64 2 interval in wrap64 (sub_ℕ (pos_part n * second) (neg_part n * second))

-- The map PingRecord: the second of the last pong of an address.
abbrev pub PingRecord : Type 0
PingRecord = List (Bytes × ℕ)

unfoldable pub put_record : Bytes → ℕ → PingRecord → PingRecord
put_record addr time [] = (addr, time) ∷ []
put_record addr time ((key, old) ∷ records) =
    let rest = put_record addr time records in
    if equal key addr then (key, time) ∷ records else (key, old) ∷ rest

-- The first loop of `StartPingIPs`.
unfoldable pub start_ping_ips : List Addr → PingRecord → PingRecord
start_ping_ips [] records = records
start_ping_ips (addr ∷ addrs) records = start_ping_ips addrs (put_record addr.string 0 records)

-- `time.Since(lastPong) > …`; `now` is in nanoseconds.
abbrev pub is_stale : ℤ → ℕ → ℕ → Bool
is_stale interval now record_time = ltb_ℤ (patience interval) (sub_ℕ now (record_time * second))

-- The status of /readyz: 200, or 503 if a record is stale.
unfoldable pub ready_status : ℤ → ℕ → PingRecord → ℕ
ready_status interval now [] = 200
ready_status interval now ((addr, time) ∷ records) =
    let rest = ready_status interval now records in if is_stale interval now time then 503 else rest

-- ServeHTTP: the status and the body. `path` has gone through path.Clean; `records_json` and `ipc_get`
-- are what json.Marshal and IpcGet return.
unfoldable pub serve_http : Bytes → Result Bytes → Result Bytes → ℤ → ℕ → PingRecord → ℕ × Bytes
serve_http path records_json ipc_get interval now records =
    if equal path (codes "/readyz")
    then elim records_json [
      | err e ↦ (500, [])
      | ok body ↦ (ready_status interval now records, body ++ b'\n' ∷ [])
    ]
    else if equal path (codes "/metrics")
    then elim ipc_get [ err e ↦ (500, []) | ok get ↦ (200, redact get) ]
    else (404, [])

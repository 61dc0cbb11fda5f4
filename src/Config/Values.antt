-- ===== src/Config/Values.antt =====
-- config.go: the parsers of single values. A name that is looked up is lowered only where the code
-- lowers it.
pub mod Laws
use model_lib.Base.{
  ℕ, ◌+◌, Bool, true, false, ◌||◌, not, Option, none, some, List, [], ◌∷◌, ◌++◌, ◌==◌,
  if◌then◌else◌, Bytes, codes, length, Error, message, foreign, num_error, wrapped, NumFault,
  syntax, range, Result, ok, err, ◌>>=◌,
}
use model_lib.Base.Int.{ℤ, pos, ltb_ℤ}
use model_lib.Strings.{
  has_prefix, trim_prefix, contains, replace_first, split, trim_space, to_lower,
}
use model_lib.Net.{split_host_port, join_host_port}
use model_lib.Encoding.{decode_base64, encode_hex}
use model_lib.Ini.{Key, Section}
use model_lib.Config.Types.{Addr, Prefix, TcpAddr, World}

abbrev pub not_empty : Bytes
not_empty = codes "should not be empty"

-- `err.Error()`. The texts of `strconv` are those of ParseUint, with the number quoted as it is.
pub error_text : Error → Bytes
error_text (message t) = t
error_text (foreign t) = t
error_text (num_error syntax s) =
    codes "strconv.ParseUint: parsing \"" ++ s ++ codes "\": invalid syntax"
error_text (num_error range s) =
    codes "strconv.ParseUint: parsing \"" ++ s ++ codes "\": value out of range"
error_text (wrapped t e) = t ++ codes ": " ++ error_text e

-- A value that starts with `$` names an environment variable, and `$$` stands for `$`.
unfoldable pub expand : World → Bytes → Bytes → Result Bytes
expand w key_name value =
    if has_prefix value (codes "$")
    then (if has_prefix value (codes "$$")
        then ok (replace_first value (codes "$$") (codes "$"))
        else elim (w.lookup_env (trim_prefix value (codes "$"))) [
          | none ↦
              err (message (key_name ++ codes " references unset environment variable " ++ value))
          | some found ↦ ok found
        ])
    else ok value

unfoldable pub parse_string : World → Section → Bytes → Result Bytes
parse_string w section key_name = elim (section.key (to_lower key_name)) [
  | none ↦ err (message (key_name ++ codes " should not be empty"))
  | some key ↦ expand w key_name key.string
]

check_port : ℤ → Result ℤ
check_port port =
    if ltb_ℤ port (pos 0) || not (ltb_ℤ port (pos 65536))
    then err (message (codes "port should be >= 0 and < 65536"))
    else ok port

unfoldable pub parse_port : Section → Bytes → Result ℤ
unfolding check_port
parse_port section key_name = elim (section.key key_name) [
  | none ↦ err (message (key_name ++ codes " should not be empty"))
  | some key ↦ key.int >>= check_port
]

unfoldable pub parse_tcp_addr : World → Section → Bytes → Result TcpAddr
parse_tcp_addr w section key_name = do
  addr ← parse_string w section key_name
  w.resolve_tcp_addr addr

check_key : Bytes → Option Bytes → Result Bytes
check_key key none = err (message (codes "invalid base64 string: " ++ key))
check_key key (some decoded) =
    if length decoded == 32
    then ok (encode_hex decoded)
    else err (message (codes "key should be 32 bytes: " ++ key))

unfoldable pub encode_base64_to_hex : Bytes → Result Bytes
unfolding check_key
encode_base64_to_hex key = check_key key (decode_base64 key)

unfoldable pub parse_base64_key_to_hex : World → Section → Bytes → Result Bytes
parse_base64_key_to_hex w section key_name = do
  key ← parse_string w section key_name
  encode_base64_to_hex key

-- The loop over the parts of a list: blank parts are passed over.
unfoldable pub parse_parts {ℓ} : {A : Type ℓ} → (Bytes → Result A) → List Bytes → Result (List A)
parse_parts parse [] = ok []
parse_parts parse (part ∷ parts) =
    let rest = parse_parts parse parts in
    let str = trim_space part in
    if length str == 0 then rest else (do ip ← parse str; ips ← rest; ok (ip ∷ ips))

-- The list behind a key: an error that says "should not be empty" is an empty list.
unfoldable pub parse_list {ℓ} : {A : Type ℓ} → (Bytes → Result A) → Result Bytes → Result (List A)
unfolding error_text parse_parts
parse_list parse (err e) = if contains (error_text e) not_empty then ok [] else err e
parse_list parse (ok key) = parse_parts parse (split key b',')

unfoldable pub parse_net_ip : World → Section → Bytes → Result (List Addr)
parse_net_ip w section key_name = parse_list w.parse_addr (parse_string w section key_name)

-- An address, or the address of a prefix.
addr_or_prefix : World → Bytes → Result Addr
addr_or_prefix w str = elim (w.parse_addr str) [
  | ok addr ↦ ok addr
  | err _ ↦ (do prefix ← w.parse_prefix str; ok prefix.addr)
]

unfoldable pub parse_cidr_net_ip : World → Section → Bytes → Result (List Addr)
unfolding addr_or_prefix
parse_cidr_net_ip w section key_name =
    parse_list (addr_or_prefix w) (parse_string w section key_name)

unfoldable pub parse_allowed_ips : World → Section → Result (List Prefix)
parse_allowed_ips w section =
    parse_list w.parse_prefix (parse_string w section (codes "AllowedIPs"))

unfoldable pub resolve_ipp_and_port : World → Bytes → Result Bytes
resolve_ipp_and_port w addr = do
  parts ← split_host_port addr
  ip ← w.resolve_ip_addr parts.0
  ok (join_host_port ip parts.1)

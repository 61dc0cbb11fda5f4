-- ===== src/Awg/Parse.antt =====
-- awg_config.go: `ParseASecConfig`. The configuration is a pointer, nil until an option is found.
pub mod Put
pub mod Blocks
pub mod Parts
pub mod Readable
pub mod Read
use model_lib.Base.{ℕ, true, Option, none, some, Bytes, codes, Result, ok, ◌>>=◌, ◌>>◌}
use model_lib.Base.Int.{ℤ}
use model_lib.Ini.{Key, Section}
use model_lib.Awg.Config.{ASecConfig, zero_config}
use model_lib.Awg.Header.{parse_magic_header_interval}
use model_lib.Awg.Validate.{validate_asec_config}

-- `if aSecConfig == nil { aSecConfig = &ASecConfigType{} }`
abbrev pub or_zero : Option ASecConfig → ASecConfig
or_zero none = zero_config
or_zero (some c) = c

-- The three forms of a block: a number, an interval of headers, a text. `store` is what the block
-- assigns.
unfoldable pub read_int :
    (ℤ → ASecConfig → ASecConfig) → Option Key → Option ASecConfig → Result (Option ASecConfig)
read_int store none config = ok config
read_int store (some key) config = do value ← key.int; ok (some (store value (or_zero config)))

unfoldable pub read_interval :
    (ℕ → ℕ → ASecConfig → ASecConfig) → Option Key → Option ASecConfig → Result (Option ASecConfig)
read_interval store none config = ok config
read_interval store (some key) config = do
  bounds ← parse_magic_header_interval key.string
  ok (some (store bounds.0 bounds.1 (or_zero config)))

unfoldable pub read_text :
    (Bytes → ASecConfig → ASecConfig) → Option Key → Option ASecConfig → Option ASecConfig
read_text store none config = config
read_text store (some key) config = some (store key.string (or_zero config))

abbrev pub store_jc : ℤ → ASecConfig → ASecConfig
store_jc v c = record c { junk_packet_count = v; has_junk_packet_count = true }

abbrev pub store_jmin : ℤ → ASecConfig → ASecConfig
store_jmin v c = record c { junk_packet_min_size = v; has_junk_packet_min_size = true }

abbrev pub store_jmax : ℤ → ASecConfig → ASecConfig
store_jmax v c = record c { junk_packet_max_size = v; has_junk_packet_max_size = true }

abbrev pub store_s1 : ℤ → ASecConfig → ASecConfig
store_s1 v c = record c { init_packet_junk_size = v; has_init_packet_junk_size = true }

abbrev pub store_s2 : ℤ → ASecConfig → ASecConfig
store_s2 v c = record c { response_packet_junk_size = v; has_response_packet_junk_size = true }

abbrev pub store_s3 : ℤ → ASecConfig → ASecConfig
store_s3 v c = record c {
  cookie_reply_packet_junk_size = v;
  has_cookie_reply_packet_junk_size = true;
}

abbrev pub store_s4 : ℤ → ASecConfig → ASecConfig
store_s4 v c = record c { transport_packet_junk_size = v; has_transport_packet_junk_size = true }

abbrev pub store_h1 : ℕ → ℕ → ASecConfig → ASecConfig
store_h1 min max c = record c {
  init_packet_magic_header = min;
  init_packet_magic_header_max = max;
  has_init_packet_magic_header = true;
}

abbrev pub store_h2 : ℕ → ℕ → ASecConfig → ASecConfig
store_h2 min max c = record c {
  response_packet_magic_header = min;
  response_packet_magic_header_max = max;
  has_response_packet_magic_header = true;
}

abbrev pub store_h3 : ℕ → ℕ → ASecConfig → ASecConfig
store_h3 min max c = record c {
  underload_packet_magic_header = min;
  underload_packet_magic_header_max = max;
  has_underload_packet_magic_header = true;
}

abbrev pub store_h4 : ℕ → ℕ → ASecConfig → ASecConfig
store_h4 min max c = record c {
  transport_packet_magic_header = min;
  transport_packet_magic_header_max = max;
  has_transport_packet_magic_header = true;
}

abbrev pub store_i1 : Bytes → ASecConfig → ASecConfig
store_i1 v c = record c { i1 = some v }

abbrev pub store_i2 : Bytes → ASecConfig → ASecConfig
store_i2 v c = record c { i2 = some v }

abbrev pub store_i3 : Bytes → ASecConfig → ASecConfig
store_i3 v c = record c { i3 = some v }

abbrev pub store_i4 : Bytes → ASecConfig → ASecConfig
store_i4 v c = record c { i4 = some v }

abbrev pub store_i5 : Bytes → ASecConfig → ASecConfig
store_i5 v c = record c { i5 = some v }

-- Jc to S4
unfoldable pub read_sizes : Section → Option ASecConfig → Result (Option ASecConfig)
read_sizes s c0 = do
  c1 ← read_int store_jc (s.get_key (codes "Jc")) c0
  c2 ← read_int store_jmin (s.get_key (codes "Jmin")) c1
  c3 ← read_int store_jmax (s.get_key (codes "Jmax")) c2
  c4 ← read_int store_s1 (s.get_key (codes "S1")) c3
  c5 ← read_int store_s2 (s.get_key (codes "S2")) c4
  c6 ← read_int store_s3 (s.get_key (codes "S3")) c5
  read_int store_s4 (s.get_key (codes "S4")) c6

-- H1 to H4
unfoldable pub read_headers : Section → Option ASecConfig → Result (Option ASecConfig)
read_headers s c0 = do
  c1 ← read_interval store_h1 (s.get_key (codes "H1")) c0
  c2 ← read_interval store_h2 (s.get_key (codes "H2")) c1
  c3 ← read_interval store_h3 (s.get_key (codes "H3")) c2
  read_interval store_h4 (s.get_key (codes "H4")) c3

-- I1 to I5
unfoldable pub read_packets : Section → Option ASecConfig → Option ASecConfig
read_packets s c0 =
    let c1 = read_text store_i1 (s.get_key (codes "I1")) c0 in
    let c2 = read_text store_i2 (s.get_key (codes "I2")) c1 in
    let c3 = read_text store_i3 (s.get_key (codes "I3")) c2 in
    let c4 = read_text store_i4 (s.get_key (codes "I4")) c3 in
    read_text store_i5 (s.get_key (codes "I5")) c4

unfoldable pub parse_asec_config : Section → Result (Option ASecConfig)
parse_asec_config section = do
  sizes ← read_sizes section none
  headers ← read_headers section sizes
  let config = read_packets section headers
  validate_asec_config config
  ok config

-- ===== src/Awg/Config.antt =====
-- awg_config.go: `ASecConfigType`. A field that starts with `has_` says that its option was given.
use model_lib.Base.{ℕ, Bool, false, Option, none, Bytes}
use model_lib.Base.Int.{ℤ, pos}

pub record ASecConfig : Type 0 where
  pub junk_packet_count : ℤ
  pub junk_packet_min_size : ℤ
  pub junk_packet_max_size : ℤ
  pub init_packet_junk_size : ℤ
  pub response_packet_junk_size : ℤ
  pub cookie_reply_packet_junk_size : ℤ
  pub transport_packet_junk_size : ℤ
  pub init_packet_magic_header : ℕ
  pub init_packet_magic_header_max : ℕ
  pub response_packet_magic_header : ℕ
  pub response_packet_magic_header_max : ℕ
  pub underload_packet_magic_header : ℕ
  pub underload_packet_magic_header_max : ℕ
  pub transport_packet_magic_header : ℕ
  pub transport_packet_magic_header_max : ℕ
  pub has_junk_packet_count : Bool
  pub has_junk_packet_min_size : Bool
  pub has_junk_packet_max_size : Bool
  pub has_init_packet_junk_size : Bool
  pub has_response_packet_junk_size : Bool
  pub has_cookie_reply_packet_junk_size : Bool
  pub has_transport_packet_junk_size : Bool
  pub has_init_packet_magic_header : Bool
  pub has_response_packet_magic_header : Bool
  pub has_underload_packet_magic_header : Bool
  pub has_transport_packet_magic_header : Bool
  pub i1 : Option Bytes
  pub i2 : Option Bytes
  pub i3 : Option Bytes
  pub i4 : Option Bytes
  pub i5 : Option Bytes

-- `&ASecConfigType{}`
abbrev pub zero_config : ASecConfig
zero_config = record {
  junk_packet_count = pos 0;
  junk_packet_min_size = pos 0;
  junk_packet_max_size = pos 0;
  init_packet_junk_size = pos 0;
  response_packet_junk_size = pos 0;
  cookie_reply_packet_junk_size = pos 0;
  transport_packet_junk_size = pos 0;
  init_packet_magic_header = 0;
  init_packet_magic_header_max = 0;
  response_packet_magic_header = 0;
  response_packet_magic_header_max = 0;
  underload_packet_magic_header = 0;
  underload_packet_magic_header_max = 0;
  transport_packet_magic_header = 0;
  transport_packet_magic_header_max = 0;
  has_junk_packet_count = false;
  has_junk_packet_min_size = false;
  has_junk_packet_max_size = false;
  has_init_packet_junk_size = false;
  has_response_packet_junk_size = false;
  has_cookie_reply_packet_junk_size = false;
  has_transport_packet_junk_size = false;
  has_init_packet_magic_header = false;
  has_response_packet_magic_header = false;
  has_underload_packet_magic_header = false;
  has_transport_packet_magic_header = false;
  i1 = none;
  i2 = none;
  i3 = none;
  i4 = none;
  i5 = none;
}

-- ===== src/Awg/Parse/Put.antt =====
-- What each option of the section puts into the configuration.
use model_lib.Base.{ℕ, Bool, true, Option, none, some, ◌≡◌, Bytes, ok, err}
use model_lib.Base.Int.{ℤ, pos}
use model_lib.Ini.{Key}
use model_lib.Awg.Config.{ASecConfig}
use model_lib.Awg.Header.{parse_magic_header_interval}

-- The value of a number option that can be read, `default` where it is missing.
abbrev pub int_or : Option Key → ℤ → ℤ
int_or none default = default
int_or (some k) default = elim k.int [ ok v ↦ v | err e ↦ pos 0 ]

abbrev pub bounds_or : Option Key → ℕ × ℕ → ℕ × ℕ
bounds_or none default = default
bounds_or (some k) default = elim (parse_magic_header_interval k.string) [
  | ok b ↦ b
  | err e ↦ (0, 0)
]

pub bounds_ok :
    (k : Key) (b default : ℕ × ℕ)
    → parse_magic_header_interval k.string ≡ ok b
    → bounds_or (some k) default ≡ b
bounds_ok k b default e = rw (e, bounds_or)

abbrev pub text_or : Option Key → Option Bytes → Option Bytes
text_or none default = default
text_or (some k) default = some k.string

abbrev pub given_or : Option Key → Bool → Bool
given_or none b = b
given_or (some k) b = true

abbrev pub put_jc : Option Key → ASecConfig → ASecConfig
put_jc o c = record c {
  junk_packet_count = int_or o c.junk_packet_count;
  has_junk_packet_count = given_or o c.has_junk_packet_count;
}

abbrev pub put_jmin : Option Key → ASecConfig → ASecConfig
put_jmin o c = record c {
  junk_packet_min_size = int_or o c.junk_packet_min_size;
  has_junk_packet_min_size = given_or o c.has_junk_packet_min_size;
}

abbrev pub put_jmax : Option Key → ASecConfig → ASecConfig
put_jmax o c = record c {
  junk_packet_max_size = int_or o c.junk_packet_max_size;
  has_junk_packet_max_size = given_or o c.has_junk_packet_max_size;
}

abbrev pub put_s1 : Option Key → ASecConfig → ASecConfig
put_s1 o c = record c {
  init_packet_junk_size = int_or o c.init_packet_junk_size;
  has_init_packet_junk_size = given_or o c.has_init_packet_junk_size;
}

abbrev pub put_s2 : Option Key → ASecConfig → ASecConfig
put_s2 o c = record c {
  response_packet_junk_size = int_or o c.response_packet_junk_size;
  has_response_packet_junk_size = given_or o c.has_response_packet_junk_size;
}

abbrev pub put_s3 : Option Key → ASecConfig → ASecConfig
put_s3 o c = record c {
  cookie_reply_packet_junk_size = int_or o c.cookie_reply_packet_junk_size;
  has_cookie_reply_packet_junk_size = given_or o c.has_cookie_reply_packet_junk_size;
}

abbrev pub put_s4 : Option Key → ASecConfig → ASecConfig
put_s4 o c = record c {
  transport_packet_junk_size = int_or o c.transport_packet_junk_size;
  has_transport_packet_junk_size = given_or o c.has_transport_packet_junk_size;
}

abbrev pub put_h1 : Option Key → ASecConfig → ASecConfig
put_h1 o c = record c {
  init_packet_magic_header =
      (bounds_or o (c.init_packet_magic_header, c.init_packet_magic_header_max)).0;
  init_packet_magic_header_max =
      (bounds_or o (c.init_packet_magic_header, c.init_packet_magic_header_max)).1;
  has_init_packet_magic_header = given_or o c.has_init_packet_magic_header;
}

abbrev pub put_h2 : Option Key → ASecConfig → ASecConfig
put_h2 o c = record c {
  response_packet_magic_header =
      (bounds_or o (c.response_packet_magic_header, c.response_packet_magic_header_max)).0;
  response_packet_magic_header_max =
      (bounds_or o (c.response_packet_magic_header, c.response_packet_magic_header_max)).1;
  has_response_packet_magic_header = given_or o c.has_response_packet_magic_header;
}

abbrev pub put_h3 : Option Key → ASecConfig → ASecConfig
put_h3 o c = record c {
  underload_packet_magic_header =
      (bounds_or o (c.underload_packet_magic_header, c.underload_packet_magic_header_max)).0;
  underload_packet_magic_header_max =
      (bounds_or o (c.underload_packet_magic_header, c.underload_packet_magic_header_max)).1;
  has_underload_packet_magic_header = given_or o c.has_underload_packet_magic_header;
}

abbrev pub put_h4 : Option Key → ASecConfig → ASecConfig
put_h4 o c = record c {
  transport_packet_magic_header =
      (bounds_or o (c.transport_packet_magic_header, c.transport_packet_magic_header_max)).0;
  transport_packet_magic_header_max =
      (bounds_or o (c.transport_packet_magic_header, c.transport_packet_magic_header_max)).1;
  has_transport_packet_magic_header = given_or o c.has_transport_packet_magic_header;
}

abbrev pub put_i1 : Option Key → ASecConfig → ASecConfig
put_i1 o c = record c { i1 = text_or o c.i1 }

abbrev pub put_i2 : Option Key → ASecConfig → ASecConfig
put_i2 o c = record c { i2 = text_or o c.i2 }

abbrev pub put_i3 : Option Key → ASecConfig → ASecConfig
put_i3 o c = record c { i3 = text_or o c.i3 }

abbrev pub put_i4 : Option Key → ASecConfig → ASecConfig
put_i4 o c = record c { i4 = text_or o c.i4 }

abbrev pub put_i5 : Option Key → ASecConfig → ASecConfig
put_i5 o c = record c { i5 = text_or o c.i5 }

-- ===== src/Awg/Parse/Read.antt =====
-- What `ParseASecConfig` returns, option by option.
use model_lib.Base.{
  Bool, false, Option, none, some, is_some, ◌≡◌, ◌↔◌, refl, sym, ap, ◌∙◌, codes, ok, bind-eq-ok,
  bind-ok,
}
use model_lib.Base.Int.{pos}
use model_lib.Ini.{Section}
use model_lib.Awg.Config.{ASecConfig}
use model_lib.Awg.Validate.{validate_asec_config}
use model_lib.Awg.Validate.Spec.{IsValid}
use model_lib.Awg.Validate.Correct.{validate_iff}
use model_lib.Awg.Parse.{or_zero, read_sizes, read_headers, read_packets, parse_asec_config}
use model_lib.Awg.Parse.Put.{int_or, bounds_or, text_or, given_or}
use model_lib.Awg.Parse.Readable.{
  Readable, read-Readable, read_sizes-Succeeds, read_headers-Succeeds,
}
use model_lib.Awg.Parse.Parts.{
  sizes_given, headers_of, headers_given, packets_of, packets_given, read_sizes_lem,
  read_headers_lem, read_packets_lem,
}

-- The configuration that the options of a section describe.
abbrev pub described : Section → ASecConfig
described s = record {
  junk_packet_count = int_or (s.get_key (codes "Jc")) (pos 0);
  junk_packet_min_size = int_or (s.get_key (codes "Jmin")) (pos 0);
  junk_packet_max_size = int_or (s.get_key (codes "Jmax")) (pos 0);
  init_packet_junk_size = int_or (s.get_key (codes "S1")) (pos 0);
  response_packet_junk_size = int_or (s.get_key (codes "S2")) (pos 0);
  cookie_reply_packet_junk_size = int_or (s.get_key (codes "S3")) (pos 0);
  transport_packet_junk_size = int_or (s.get_key (codes "S4")) (pos 0);
  init_packet_magic_header = (bounds_or (s.get_key (codes "H1")) (0, 0)).0;
  init_packet_magic_header_max = (bounds_or (s.get_key (codes "H1")) (0, 0)).1;
  response_packet_magic_header = (bounds_or (s.get_key (codes "H2")) (0, 0)).0;
  response_packet_magic_header_max = (bounds_or (s.get_key (codes "H2")) (0, 0)).1;
  underload_packet_magic_header = (bounds_or (s.get_key (codes "H3")) (0, 0)).0;
  underload_packet_magic_header_max = (bounds_or (s.get_key (codes "H3")) (0, 0)).1;
  transport_packet_magic_header = (bounds_or (s.get_key (codes "H4")) (0, 0)).0;
  transport_packet_magic_header_max = (bounds_or (s.get_key (codes "H4")) (0, 0)).1;
  has_junk_packet_count = given_or (s.get_key (codes "Jc")) false;
  has_junk_packet_min_size = given_or (s.get_key (codes "Jmin")) false;
  has_junk_packet_max_size = given_or (s.get_key (codes "Jmax")) false;
  has_init_packet_junk_size = given_or (s.get_key (codes "S1")) false;
  has_response_packet_junk_size = given_or (s.get_key (codes "S2")) false;
  has_cookie_reply_packet_junk_size = given_or (s.get_key (codes "S3")) false;
  has_transport_packet_junk_size = given_or (s.get_key (codes "S4")) false;
  has_init_packet_magic_header = given_or (s.get_key (codes "H1")) false;
  has_response_packet_magic_header = given_or (s.get_key (codes "H2")) false;
  has_underload_packet_magic_header = given_or (s.get_key (codes "H3")) false;
  has_transport_packet_magic_header = given_or (s.get_key (codes "H4")) false;
  i1 = text_or (s.get_key (codes "I1")) none;
  i2 = text_or (s.get_key (codes "I2")) none;
  i3 = text_or (s.get_key (codes "I3")) none;
  i4 = text_or (s.get_key (codes "I4")) none;
  i5 = text_or (s.get_key (codes "I5")) none;
}

-- Whether the section has an AmneziaWG option.
abbrev pub any_option : Section → Bool
any_option s = packets_given s (headers_given s (sizes_given s false))

-- The options can be read. What is read, `none` being the nil pointer, is nil exactly if no option is given; otherwise it is
-- the configuration that the options describe, and it is valid.
pub record ReadFrom (s : Section) (r : Option ASecConfig) : Type 0 where
  pub readable : Readable s
  pub given : is_some r ≡ any_option s
  pub fields : or_zero r ≡ described s
  pub valid : (c : ASecConfig) → r ≡ some c → IsValid c

pub parse_asec_config-ReadFrom :
    (s : Section) (r : Option ASecConfig) → parse_asec_config s ≡ ok r → ReadFrom s r
unfolding parse_asec_config
parse_asec_config-ReadFrom s r e =
    let (c1, r1, e1) = bind-eq-ok (read_sizes s none) _ e in
    let (c2, r2, e2) = bind-eq-ok (read_headers s c1) _ e1 in
    let (_, checked, e3) = bind-eq-ok (validate_asec_config (read_packets s c2)) _ e2 in
    let same : read_packets s c2 ≡ r = cc in
    let t1 = read_sizes_lem s none r1 in
    let t2 = read_headers_lem s c1 r2 in
    let t3 = read_packets_lem s c2 in
    record {
      readable = read-Readable s none r1 r2;
      given =
          ap is_some (sym same) ∙ t3.1 ∙ ap (packets_given s) (t2.1 ∙ ap (headers_given s) t1.1);
      fields = ap or_zero (sym same) ∙ t3.0 ∙ ap (packets_of s) (t2.0 ∙ ap (headers_of s) t1.0);
      valid = λ c f. (validate_iff c).0 (rw (same ∙ f) at checked);
    }

same_config : {r r' : Option ASecConfig} → is_some r ≡ is_some r' → or_zero r ≡ or_zero r' → r ≡ r'
same_config {r = none} {r' = none} given fields = refl
same_config {r = none} {r' = some c} given fields = cc
same_config {r = some b} {r' = none} given fields = cc
same_config {r = some b} {r' = some c} given fields = ap some fields

validate-ok :
    (r : Option ASecConfig)
    → ((c : ASecConfig) → r ≡ some c → IsValid c)
    → validate_asec_config r ≡ ok tt
unfolding validate_asec_config
validate-ok none valid = refl
validate-ok (some c) valid = (validate_iff c).1 (valid c refl)

ReadFrom-parse_asec_config :
    (s : Section) (r : Option ASecConfig) → ReadFrom s r → parse_asec_config s ≡ ok r
unfolding parse_asec_config
ReadFrom-parse_asec_config s r of =
    let (c1, r1) = read_sizes-Succeeds s of.readable none in
    let (c2, r2) = read_headers-Succeeds s of.readable c1 in
    let t1 = read_sizes_lem s none r1 in
    let t2 = read_headers_lem s c1 r2 in
    let t3 = read_packets_lem s c2 in
    let same : read_packets s c2 ≡ r =
      same_config (t3.1 ∙ ap (packets_given s) (t2.1 ∙ ap (headers_given s) t1.1) ∙ sym of.given)
        (t3.0 ∙ ap (packets_of s) (t2.0 ∙ ap (headers_of s) t1.0) ∙ sym of.fields) in
    bind-ok _ r1 (
      bind-ok _ r2 (bind-ok _ (ap validate_asec_config same ∙ validate-ok r of.valid) (ap ok same)))

-- ParseASecConfig returns a configuration without an error exactly if the options of the section that
-- are numbers or intervals can be read, it is nil exactly if the section has none of the options, it
-- holds what the options say, with defaults for the others, and it is valid.
pub parse_asec_config_iff :
    (s : Section) (r : Option ASecConfig) → (parse_asec_config s ≡ ok r) ↔ ReadFrom s r
parse_asec_config_iff s r = (parse_asec_config-ReadFrom s r, ReadFrom-parse_asec_config s r)

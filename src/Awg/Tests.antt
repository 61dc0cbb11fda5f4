-- ===== src/Awg/Tests.antt =====
-- Runs of awg_config.go on concrete options.
use model_lib.Base.{
  ◌≤◌, true, false, some, List, [], ◌∷◌, ◌≡◌, ◌↔◌, refl, arith, codes, equal, ok, err, message,
}
use model_lib.Base.Int.{pos, add64}
use model_lib.Strings.{to_lower, trim_space, split}
use model_lib.Strconv.{parse_uint}
use model_lib.Ini.{Section}
use model_lib.Ini.Sample.{section_of, find_key}
use model_lib.Awg.Config.{ASecConfig, zero_config}
use model_lib.Awg.Header.{
  max_u32, parse_magic_header_interval, format_magic_header_interval, HeaderInterval,
  has_overlapping_header_intervals,
}
use model_lib.Awg.Header.Text.{parse-format, parse_bounds}
use model_lib.Awg.Header.Overlap.{AllDisjoint, overlapping_iff}
use model_lib.Awg.Validate.{
  validate_asec_config, packet_sizes, collect_effective_header_intervals, jc_error, two_sizes_error,
  unique_error,
}
use model_lib.Awg.Validate.Spec.{IsValid}
use model_lib.Awg.Validate.Correct.{validate_iff}
use model_lib.Awg.Parse.{
  parse_asec_config, read_sizes, read_headers, read_packets, read_int, read_interval, read_text,
}
use model_lib.Awg.Parse.Read.{ReadFrom, parse_asec_config_iff}

abbrev config : ASecConfig
config = record zero_config {
  junk_packet_count = pos 4;
  has_junk_packet_count = true;
  junk_packet_min_size = pos 40;
  has_junk_packet_min_size = true;
  junk_packet_max_size = pos 70;
  has_junk_packet_max_size = true;
  init_packet_junk_size = pos 15;
  has_init_packet_junk_size = true;
  init_packet_magic_header = 100;
  init_packet_magic_header_max = 200;
  has_init_packet_magic_header = true;
  i1 = some (codes "<b 0x01>");
}

abbrev options : Section
options = section_of (
    (codes "jc", codes "4")
    ∷ (codes "jmin", codes "40")
    ∷ (codes "jmax", codes "70")
    ∷ (codes "s1", codes "15")
    ∷ (codes "h1", codes " 100-200")
    ∷ (codes "i1", codes "<b 0x01>")
    ∷ [])

validate_example : (validate_asec_config (some config) ≡ ok tt) ↔ IsValid config
validate_example = validate_iff config

refused :
    (validate_asec_config (some (record config { junk_packet_count = pos 129 }))
      ≡ err (message jc_error))
    × (validate_asec_config (
          some (record config {
            response_packet_junk_size = pos 71;
            has_response_packet_junk_size = true;
          }))
        ≡ err (message two_sizes_error))
    × (validate_asec_config (some (record config { init_packet_magic_header = 2 }))
        ≡ err (message unique_error))
unfolding validate_asec_config packet_sizes add64 collect_effective_header_intervals
    has_overlapping_header_intervals
refused = (refl, refl, refl)

parse_asec_config-options : parse_asec_config options ≡ ok (some config)
unfolding parse_asec_config read_sizes read_int find_key equal to_lower read_headers read_interval
    parse_magic_header_interval trim_space split validate_asec_config read_packets read_text
    packet_sizes collect_effective_header_intervals has_overlapping_header_intervals
parse_asec_config-options = refl

parse_asec_config_example : ReadFrom options (some config)
parse_asec_config_example =
    (parse_asec_config_iff options (some config)).0 parse_asec_config-options

parse-format_example :
    parse_magic_header_interval (format_magic_header_interval 100 200) ≡ ok (100, 200)
parse-format_example = parse-format 100 200 (omega arith) (omega arith)

parse_interval-run : parse_magic_header_interval (codes " 7-4294967295 ") ≡ ok (7, 4294967295)
unfolding parse_magic_header_interval trim_space split parse_uint
parse_interval-run = refl

parse_bounds_example : (7 ≤ 4294967295) × (4294967295 ≤ max_u32)
parse_bounds_example = parse_bounds (codes " 7-4294967295 ") 7 4294967295 parse_interval-run

abbrev intervals : List HeaderInterval
intervals =
    (record { key = codes "h1"; min = 100; max = 200 })
    ∷ (record { key = codes "h2"; min = 201; max = 201 })
    ∷ []

overlapping_example : (has_overlapping_header_intervals intervals ≡ false) ↔ AllDisjoint intervals
overlapping_example = overlapping_iff intervals (omega arith)

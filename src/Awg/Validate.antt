-- ===== src/Awg/Validate.antt =====
-- awg_config.go: `ValidateASecConfig` and `collectEffectiveHeaderIntervals`.
pub mod Spec
mod Sizes
mod Headers
pub mod Correct
use model_lib.Base.{
  ℕ, ◌+◌, Bool, true, false, not, ◌&&◌, ◌||◌, Option, none, some, List, [], ◌∷◌, leb, ltb, ◌==◌,
  if◌then◌else◌, Bytes, codes, Result, ok, err, message, ◌>>=◌, ◌>>◌,
}
use model_lib.Base.Int.{ℤ, pos, ltb_ℤ, eqb_ℤ, add64}
use model_lib.Awg.Config.{ASecConfig}
use model_lib.Awg.Header.{HeaderInterval, bad_range, has_overlapping_header_intervals}

abbrev pub jc_error : Bytes
jc_error = codes "value of the Jc field must be within the range of 1 to 128"

abbrev pub jmin_error : Bytes
jmin_error = codes "value of the Jmin field must be less than or equal to Jmax field value"

abbrev pub jmax_error : Bytes
jmax_error = codes "value of the Jmax field must be less than or equal 1280"

abbrev pub all_sizes_error : Bytes
all_sizes_error =
    codes
      "value of the field S1 + message initiation size (148) must not equal S2 + message response size (92) + S3 + cookie reply size (64) + S4 + transport packet size (32)"

abbrev pub two_sizes_error : Bytes
two_sizes_error =
    codes
      "value of the field S1 + message initiation size (148) must not equal S2 + message response size (92)"

abbrev pub unique_error : Bytes
unique_error = codes "values of the H1-H4 fields must be unique"

-- `const messageInitiationSize` and its siblings
abbrev pub message_initiation_size : ℕ
message_initiation_size = 148

abbrev pub message_response_size : ℕ
message_response_size = 92

abbrev pub message_cookie_reply_size : ℕ
message_cookie_reply_size = 64

abbrev pub message_transport_size : ℕ
message_transport_size = 32

-- `packetSizeCheck`
pub record PacketSizeCheck : Type 0 where
  pub is_set : Bool
  pub size : ℤ

unfoldable pub packet_sizes : ASecConfig → List PacketSizeCheck
packet_sizes c =
    (record {
      is_set = c.has_init_packet_junk_size;
      size = add64 message_initiation_size c.init_packet_junk_size;
    })
    ∷ (record {
      is_set = c.has_response_packet_junk_size;
      size = add64 message_response_size c.response_packet_junk_size;
    })
    ∷ (record {
      is_set = c.has_cookie_reply_packet_junk_size;
      size = add64 message_cookie_reply_size c.cookie_reply_packet_junk_size;
    })
    ∷ (record {
      is_set = c.has_transport_packet_junk_size;
      size = add64 message_transport_size c.transport_packet_junk_size;
    })
    ∷ []

abbrev size_error : ASecConfig → Bytes
size_error c =
    if c.has_cookie_reply_packet_junk_size || c.has_transport_packet_junk_size
    then all_sizes_error
    else two_sizes_error

-- The inner loop: `left` against the sizes behind it.
check_size : ASecConfig → PacketSizeCheck → List PacketSizeCheck → Result (Unit {0})
check_size c left [] = ok tt
check_size c left (right ∷ rest) =
    let more = check_size c left rest in
    if not right.is_set
    then more
    else if eqb_ℤ left.size right.size
    then err (message (size_error c))
    else more

-- The outer loop.
pub check_sizes : ASecConfig → List PacketSizeCheck → Result (Unit {0})
unfolding check_size
check_sizes c [] = ok tt
check_sizes c (left ∷ rest) =
    let more = check_sizes c rest in
    if not left.is_set then more else (check_size c left rest >> more)

-- The bounds that count: those of the option, or the default.
abbrev pub effective : Bytes → Bool → ℕ → ℕ → ℕ → HeaderInterval
effective key has min max default = record {
  key = key;
  min = if has then min else default;
  max = if has then max else default;
}

-- The parts of a configuration that stand in the intervals, `none` being a nil pointer.
unfoldable pub collect_effective_header_intervals : Option ASecConfig → List HeaderInterval
collect_effective_header_intervals none =
    effective (codes "h1") false 0 0 1
    ∷ effective (codes "h2") false 0 0 2
    ∷ effective (codes "h3") false 0 0 3
    ∷ effective (codes "h4") false 0 0 4
    ∷ []
collect_effective_header_intervals (some c) =
    effective (codes "h1") c.has_init_packet_magic_header c.init_packet_magic_header
      c.init_packet_magic_header_max 1
    ∷ effective (codes "h2") c.has_response_packet_magic_header c.response_packet_magic_header
        c.response_packet_magic_header_max 2
    ∷ effective (codes "h3") c.has_underload_packet_magic_header c.underload_packet_magic_header
        c.underload_packet_magic_header_max 3
    ∷ effective (codes "h4") c.has_transport_packet_magic_header c.transport_packet_magic_header
        c.transport_packet_magic_header_max 4
    ∷ []

pub check_order : List HeaderInterval → Result (Unit {0})
check_order [] = ok tt
check_order (i ∷ rest) =
    let more = check_order rest in if ltb i.max i.min then err (message bad_range) else more

pub check_headers : List HeaderInterval → Result (Unit {0})
unfolding check_order
check_headers intervals = do
  check_order intervals
  if has_overlapping_header_intervals intervals then err (message unique_error) else ok tt

-- The three checks of the junk packets.
check_junk : ASecConfig → Result (Unit {0})
check_junk c =
    if c.has_junk_packet_count
      && (ltb_ℤ c.junk_packet_count (pos 1) || ltb_ℤ (pos 128) c.junk_packet_count)
    then err (message jc_error)
    else if c.has_junk_packet_min_size
        && c.has_junk_packet_max_size
        && ltb_ℤ c.junk_packet_max_size c.junk_packet_min_size
    then err (message jmin_error)
    else if c.has_junk_packet_max_size && ltb_ℤ (pos 1280) c.junk_packet_max_size
    then err (message jmax_error)
    else ok tt

unfoldable pub validate_asec_config : Option ASecConfig → Result (Unit {0})
unfolding check_junk check_sizes check_headers
validate_asec_config none = ok tt
validate_asec_config (some c) = do
  check_junk c
  check_sizes c (packet_sizes c)
  check_headers (collect_effective_header_intervals (some c))

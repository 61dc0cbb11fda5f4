-- ===== src/Awg/Validate/Spec.antt =====
-- What a valid AmneziaWG configuration is, said without the code's lists, loops and tests.
use model_lib.Base.{ℕ, ◌≤◌, Bool, true, ◌≡◌, ◌≢◌, if◌then◌else◌}
use model_lib.Base.Int.{ℤ, pos, ◌≤ℤ◌, add64}
use model_lib.Awg.Config.{ASecConfig}

-- The four kinds of WireGuard packets.
pub data PacketKind : Type 0 where
  initiation response cookie_reply transport : PacketKind

abbrev pub has_size : PacketKind → ASecConfig → Bool
has_size initiation c = c.has_init_packet_junk_size
has_size response c = c.has_response_packet_junk_size
has_size cookie_reply c = c.has_cookie_reply_packet_junk_size
has_size transport c = c.has_transport_packet_junk_size

-- The size of a packet with its junk.
abbrev pub padded_size : PacketKind → ASecConfig → ℤ
padded_size initiation c = add64 148 c.init_packet_junk_size
padded_size response c = add64 92 c.response_packet_junk_size
padded_size cookie_reply c = add64 64 c.cookie_reply_packet_junk_size
padded_size transport c = add64 32 c.transport_packet_junk_size

-- The least and the greatest header of a kind: those given, or WireGuard's message type.
abbrev pub least_header : PacketKind → ASecConfig → ℕ
least_header initiation c = if c.has_init_packet_magic_header then c.init_packet_magic_header else 1
least_header response c =
    if c.has_response_packet_magic_header then c.response_packet_magic_header else 2
least_header cookie_reply c =
    if c.has_underload_packet_magic_header then c.underload_packet_magic_header else 3
least_header transport c =
    if c.has_transport_packet_magic_header then c.transport_packet_magic_header else 4

abbrev pub greatest_header : PacketKind → ASecConfig → ℕ
greatest_header initiation c =
    if c.has_init_packet_magic_header then c.init_packet_magic_header_max else 1
greatest_header response c =
    if c.has_response_packet_magic_header then c.response_packet_magic_header_max else 2
greatest_header cookie_reply c =
    if c.has_underload_packet_magic_header then c.underload_packet_magic_header_max else 3
greatest_header transport c =
    if c.has_transport_packet_magic_header then c.transport_packet_magic_header_max else 4

-- A packet with header `h` is taken for one of this kind.
abbrev pub TakenFor : ℕ → PacketKind → ASecConfig → Type 0
TakenFor h k c = (least_header k c ≤ h) × (h ≤ greatest_header k c)

pub record JunkInRange (c : ASecConfig) : Type 0 where
  pub count :
      c.has_junk_packet_count ≡ true
      → (pos 1 ≤ℤ c.junk_packet_count) × (c.junk_packet_count ≤ℤ pos 128)
  pub sizes_ordered :
      c.has_junk_packet_min_size ≡ true
      → c.has_junk_packet_max_size ≡ true
      → c.junk_packet_min_size ≤ℤ c.junk_packet_max_size
  pub max_size : c.has_junk_packet_max_size ≡ true → c.junk_packet_max_size ≤ℤ pos 1280

-- Packets of different kinds whose junk size is given have different sizes.
abbrev pub SizesDiffer : ASecConfig → Type 0
SizesDiffer c =
    (k l : PacketKind)
    → k ≢ l
    → has_size k c ≡ true
    → has_size l c ≡ true
    → padded_size k c ≢ padded_size l c

abbrev pub HeadersOrdered : ASecConfig → Type 0
HeadersOrdered c = (k : PacketKind) → least_header k c ≤ greatest_header k c

-- No header is taken for two kinds.
abbrev pub HeadersDiffer : ASecConfig → Type 0
HeadersDiffer c = (k l : PacketKind) → k ≢ l → (h : ℕ) → TakenFor h k c → TakenFor h l c → ⊥

pub record IsValid (c : ASecConfig) : Type 0 where
  pub junk : JunkInRange c
  pub sizes : SizesDiffer c
  pub ordered : HeadersOrdered c
  pub headers : HeadersDiffer c

-- ===== src/Ipc/RoundTrip.antt =====
-- Reading the request back: lines of a key, a `=` and a value.
use model_lib.Base.{
  Bool, true, false, Option, none, some, List, [], ◌∷◌, ◌++◌, append_assoc, append-nil, ◌≡◌, ◌≢◌,
  refl, sym, ap, ◌∙◌, arith, Bytes, codes, All, All-append,
}
use model_lib.Base.Int.{ℤ}
use model_lib.Strings.{split, split_once}
use model_lib.Strings.Split.{Lacks, split-append, split_once-append}
use model_lib.Strconv.{itoa}
use model_lib.Awg.Config.{ASecConfig}
use model_lib.Config.Types.{Prefix, PeerConfig, DeviceConfig}
use model_lib.Ipc.{
  line, line_if, line_of, size_lines, header_lines, packet_lines, asec_lines, allowed_lines,
  allowed_or_all, peer_lines, peers_lines, port_line, create_ipc_request,
}
use model_lib.Ipc.Settings.{
  Setting, settings_if, settings_of, number_of, asec_settings, each_allowed, allowed_settings,
  peer_settings, peers_settings, device_settings, OneLine,
}

abbrev or_empty : Option Bytes → Bytes
or_empty none = []
or_empty (some value) = value

-- The settings of the lines; blank lines are passed over.
abbrev read_lines : List Bytes → List Setting
unfolding split_once
read_lines [] = []
read_lines ([] ∷ lines) = read_lines lines
read_lines ((c ∷ l) ∷ lines) =
    ((split_once (c ∷ l) b'=').0, or_empty (split_once (c ∷ l) b'=').1) ∷ read_lines lines

-- A reader of requests.
unfoldable pub read_request : Bytes → List Setting
unfolding read_lines
read_request text = read_lines (split text b'\n')

abbrev pub text_of : List Setting → Bytes
text_of [] = []
text_of ((key, value) ∷ settings) = line key value ++ text_of settings

-- A key that is written and read back.
pub record IsClean (setting : Setting) : Type 0 where
  pub key_some : setting.0 ≢ []
  pub key_plain : Lacks b'=' setting.0
  pub key_line : OneLine setting.0
  pub value_line : OneLine setting.1

line-OneLine : (key value : Bytes) → OneLine key → OneLine value → OneLine (key ++ b'=' ∷ value)
line-OneLine key value k v = All-append _ key (b'=' ∷ value) k ((omega arith), v)

pub split-line :
    (key value rest : Bytes)
    → OneLine key
    → OneLine value
    → split (line key value ++ rest) b'\n' ≡ (key ++ b'=' ∷ value) ∷ split rest b'\n'
split-line key value rest k v =
    let flat : line key value ++ rest ≡ (key ++ b'=' ∷ value) ++ b'\n' ∷ rest = simp append_assoc in
    ap (λ s. split s b'\n') flat
    ∙ split-append (key ++ b'=' ∷ value) rest b'\n' (line-OneLine key value k v)

read-line :
    (key value : Bytes) (lines : List Bytes)
    → key ≢ []
    → Lacks b'=' key
    → read_lines ((key ++ b'=' ∷ value) ∷ lines) ≡ (key, value) ∷ read_lines lines
unfolding read_lines
read-line [] value lines ne plain = absurd (ne refl)
read-line (c ∷ k) value lines ne plain =
    ap (λ (p : Bytes × Option Bytes). (p.0, or_empty p.1) ∷ read_lines lines)
      (split_once-append (c ∷ k) value b'=' plain)

pub read-text_of :
    (settings : List Setting) → All IsClean settings → read_request (text_of settings) ≡ settings
unfolding read_request read_lines
read-text_of [] clean = unfold split in refl
read-text_of ((key, value) ∷ settings) (c, clean) =
    ap read_lines (split-line key value (text_of settings) c.key_line c.value_line)
    ∙ read-line key value (split (text_of settings) b'\n') c.key_some c.key_plain
    ∙ ap (◌∷◌ (key, value)) (read-text_of settings clean)

text_of-append : (a b : List Setting) → text_of (a ++ b) ≡ text_of a ++ text_of b
text_of-append [] b = refl
text_of-append ((key, value) ∷ a) b =
    ap (λ s. line key value ++ s) (text_of-append a b)
    ∙ sym (append_assoc (line key value) (text_of a) (text_of b))

text_of-settings_if :
    (given : Bool) (key value : Bytes)
    → text_of (settings_if given key value) ≡ line_if given key value
text_of-settings_if true key value = append-nil (line key value)
text_of-settings_if false key value = refl

text_of-settings_of : (key : Bytes) (o : Option Bytes) → text_of (settings_of key o) ≡ line_of key o
text_of-settings_of key none = refl
text_of-settings_of key (some value) = append-nil (line key value)

text_of-number_of : (o : Option ℤ) → text_of (number_of (codes "listen_port") o) ≡ port_line o
unfolding port_line
text_of-number_of none = refl
text_of-number_of (some n) = append-nil (line (codes "listen_port") (itoa n))

ruleset text_rules = (text_of-append, text_of-settings_if, text_of-settings_of, text_of-number_of)

text_of-asec : (o : Option ASecConfig) → text_of (asec_settings o) ≡ asec_lines o
unfolding asec_lines size_lines header_lines packet_lines
text_of-asec none = refl
text_of-asec (some c) = simp text_rules

text_of-each_allowed : (ips : List Prefix) → text_of (each_allowed ips) ≡ allowed_lines ips
unfolding allowed_lines
text_of-each_allowed [] = refl
text_of-each_allowed (ip ∷ ips) =
    ap (λ s. line (codes "allowed_ip") ip.string ++ s) (text_of-each_allowed ips)

text_of-allowed : (ips : List Prefix) → text_of (allowed_settings ips) ≡ allowed_or_all ips
unfolding allowed_or_all
text_of-allowed [] = refl
text_of-allowed (ip ∷ ips) = text_of-each_allowed (ip ∷ ips)

text_of-peer : (p : PeerConfig) → text_of (peer_settings p) ≡ peer_lines p
unfolding peer_lines
text_of-peer p = simp (text_rules, text_of-allowed, peer_lines, append_assoc)

text_of-peers : (peers : List PeerConfig) → text_of (peers_settings peers) ≡ peers_lines peers
unfolding peers_lines
text_of-peers [] = refl
text_of-peers (p ∷ peers) =
    text_of-append (peer_settings p) (peers_settings peers)
    ∙ (λ i. text_of-peer p i ++ text_of-peers peers i)

pub text_of-device :
    (conf : DeviceConfig) → text_of (device_settings conf) ≡ (create_ipc_request conf).ipc_request
unfolding create_ipc_request
text_of-device conf =
    simp (text_rules, text_of-asec, text_of-peers, create_ipc_request, append_assoc)

-- ===== src/Ipc/Clean.antt =====
-- wireguard.go: the request of a configuration whose texts have no line break.
use model_lib.Base.{
  ℕ, ◌+◌, Bool, true, false, Option, none, some, List, [], ◌∷◌, ◌++◌, ◌≡◌, ◌≢◌, refl, sym, ap, ◌∙◌,
  arith, Bytes, codes, All, All-append, ◌==◌, not, ◌&&◌, Bool-cases, inl, inr,
}
use model_lib.Base.Int.{ℤ, pos, negsuc}
use model_lib.Strings.Split.{Lacks}
use model_lib.Strconv.{is_digit, itoa, format_uint}
use model_lib.Strconv.RoundTrip.{AllDigits, format_uint-AllDigits}
use model_lib.Awg.Config.{ASecConfig}
use model_lib.Awg.Header.{format_magic_header_interval}
use model_lib.Config.Types.{Prefix, PeerConfig, DeviceConfig}
use model_lib.Ipc.{create_ipc_request}
use model_lib.Ipc.Settings.{
  Setting, settings_if, settings_of, number_of, size_settings, header_settings, asec_settings,
  each_allowed, allowed_settings, peer_settings, peers_settings, device_settings, OneLine,
  OneLineIf, ASecOneLine, PeerOneLine, IsOneLine,
}
use model_lib.Ipc.RoundTrip.{IsClean, read_request, text_of-device, read-text_of}

digit_lem : (c : ℕ) → is_digit c ≡ true → c ≢ b'\n'
unfolding is_digit
digit_lem c d = ground arith

AllDigits-OneLine : (s : Bytes) → AllDigits s → OneLine s
AllDigits-OneLine [] d = tt
AllDigits-OneLine (c ∷ s) d = (digit_lem c d.0, AllDigits-OneLine s d.1)

itoa-OneLine : (n : ℤ) → OneLine (itoa n)
unfolding itoa
itoa-OneLine (pos n) = AllDigits-OneLine _ (format_uint-AllDigits n)
itoa-OneLine (negsuc n) = ((omega arith), AllDigits-OneLine _ (format_uint-AllDigits (n + 1)))

format-OneLine : (n m : ℕ) → OneLine (format_magic_header_interval n m)
unfolding format_magic_header_interval
format-OneLine n m = elim (Bool-cases (n == m)) [
  | inl same ↦ rw same (AllDigits-OneLine _ (format_uint-AllDigits n))
  | inr differ ↦ rw differ (
      All-append _ (format_uint n) (b'-' ∷ format_uint m)
        (AllDigits-OneLine _ (format_uint-AllDigits n))
        ((omega arith), AllDigits-OneLine _ (format_uint-AllDigits m)))
]

-- The keys of the code pass this test.
abbrev is_plain : Bytes → Bool
is_plain [] = true
is_plain (c ∷ s) = not (c == b'=') && not (c == b'\n') && is_plain s

is_plain-Lacks : (s : Bytes) → is_plain s ≡ true → Lacks b'=' s × OneLine s
is_plain-Lacks [] e = (tt, tt)
is_plain-Lacks (c ∷ s) e = ground (arith, is_plain-Lacks s)

abbrev is_key : Bytes → Bool
is_key [] = false
is_key (c ∷ s) = is_plain (c ∷ s)

clean : (key value : Bytes) → is_key key ≡ true → OneLine value → IsClean (key, value)
clean [] value e h = cc
clean (c ∷ s) value e h = record {
  key_some = λ z. cc;
  key_plain = (is_plain-Lacks (c ∷ s) e).0;
  key_line = (is_plain-Lacks (c ∷ s) e).1;
  value_line = h;
}

record AllClean (settings : List Setting) : Type 0 where
  all : All IsClean settings

clean-if :
    (given : Bool) (key value : Bytes)
    → is_key key ≡ true
    → OneLine value
    → AllClean (settings_if given key value)
clean-if true key value e h = record { all = (clean key value e h, tt) }
clean-if false key value e h = record { all = tt }

clean-number :
    (given : Bool) (key : Bytes) (n : ℤ)
    → is_key key ≡ true
    → AllClean (settings_if given key (itoa n))
clean-number given key n e = clean-if given key (itoa n) e (itoa-OneLine n)

clean-header :
    (given : Bool) (key : Bytes) (n m : ℕ)
    → is_key key ≡ true
    → AllClean (settings_if given key (format_magic_header_interval n m))
clean-header given key n m e =
    clean-if given key (format_magic_header_interval n m) e (format-OneLine n m)

clean-of :
    (key : Bytes) (o : Option Bytes)
    → is_key key ≡ true
    → OneLineIf o
    → AllClean (settings_of key o)
clean-of key none e h = record { all = tt }
clean-of key (some value) e h = record { all = (clean key value e h, tt) }

clean-port : (o : Option ℤ) → AllClean (number_of (codes "listen_port") o)
clean-port none = record { all = tt }
clean-port (some n) = record {
  all = (clean (codes "listen_port") (itoa n) refl (itoa-OneLine n), tt);
}

infixl 5 ◌&◌
◌&◌ : {a b : List Setting} → AllClean a → AllClean b → AllClean (a ++ b)
◌&◌ {a} {b} x y = record { all = All-append IsClean a b x.all y.all }

clean-size : (c : ASecConfig) → AllClean (size_settings c)
clean-size c =
    clean-number c.has_junk_packet_count (codes "jc") c.junk_packet_count refl
    & clean-number c.has_junk_packet_min_size (codes "jmin") c.junk_packet_min_size refl
    & clean-number c.has_junk_packet_max_size (codes "jmax") c.junk_packet_max_size refl
    & clean-number c.has_init_packet_junk_size (codes "s1") c.init_packet_junk_size refl
    & clean-number c.has_response_packet_junk_size (codes "s2") c.response_packet_junk_size refl
    & clean-number c.has_cookie_reply_packet_junk_size (codes "s3") c.cookie_reply_packet_junk_size
        refl
    & clean-number c.has_transport_packet_junk_size (codes "s4") c.transport_packet_junk_size refl

clean-headers : (c : ASecConfig) → AllClean (header_settings c)
clean-headers c =
    clean-header c.has_init_packet_magic_header (codes "h1") c.init_packet_magic_header
      c.init_packet_magic_header_max refl
    & clean-header c.has_response_packet_magic_header (codes "h2") c.response_packet_magic_header
        c.response_packet_magic_header_max refl
    & clean-header c.has_underload_packet_magic_header (codes "h3") c.underload_packet_magic_header
        c.underload_packet_magic_header_max refl
    & clean-header c.has_transport_packet_magic_header (codes "h4") c.transport_packet_magic_header
        c.transport_packet_magic_header_max refl

clean-asec : (o : Option ASecConfig) → ASecOneLine o → AllClean (asec_settings o)
clean-asec none h = record { all = tt }
clean-asec (some c) (h1, h2, h3, h4, h5) =
    let packets =
      clean-of (codes "i1") c.i1 refl h1
      & clean-of (codes "i2") c.i2 refl h2
      & clean-of (codes "i3") c.i3 refl h3
      & clean-of (codes "i4") c.i4 refl h4
      & clean-of (codes "i5") c.i5 refl h5 in
    clean-size c & clean-headers c & packets

clean-each : (ips : List Prefix) → All (λ ip. OneLine ip.string) ips → AllClean (each_allowed ips)
clean-each [] h = record { all = tt }
clean-each (ip ∷ ips) h = record {
  all = (clean (codes "allowed_ip") ip.string refl h.0, (clean-each ips h.1).all);
}

clean-allowed :
    (ips : List Prefix) → All (λ ip. OneLine ip.string) ips → AllClean (allowed_settings ips)
clean-allowed [] h = record {
  all = (
    clean (codes "allowed_ip") (codes "0.0.0.0/0") refl (omega arith),
    (clean (codes "allowed_ip") (codes "::0/0") refl (omega arith), tt),
  );
}
clean-allowed (ip ∷ ips) h = clean-each (ip ∷ ips) h

clean-peer : (p : PeerConfig) → PeerOneLine p → AllClean (peer_settings p)
clean-peer p h =
    let more =
      clean-of (codes "endpoint") p.endpoint refl h.endpoint
      & clean-allowed p.allowed_ips h.allowed_ips in
    let alive =
      clean (codes "persistent_keepalive_interval") (itoa p.keep_alive) refl
        (itoa-OneLine p.keep_alive) in
    let shared = clean (codes "preshared_key") p.pre_shared_key refl h.pre_shared_key in
    let public = clean (codes "public_key") p.public_key refl h.public_key in
    record { all = (public, (alive, (shared, more.all))) }

clean-peers : (peers : List PeerConfig) → All PeerOneLine peers → AllClean (peers_settings peers)
clean-peers [] h = record { all = tt }
clean-peers (p ∷ peers) h = clean-peer p h.0 & clean-peers peers h.1

clean-device : (conf : DeviceConfig) → IsOneLine conf → AllClean (device_settings conf)
clean-device conf h =
    let more =
      clean-port conf.listen_port
      & clean-asec conf.asec_config h.asec
      & clean-peers conf.peers h.peers in
    record { all = (clean (codes "private_key") conf.secret_key refl h.secret_key, more.all) }

-- If no text of the configuration has a line break, the request that is made of it reads back as its
-- settings: the private key, the port, the AmneziaWG options that are given, and for each peer its keys,
-- its endpoint and its allowed addresses, or all addresses if there are none.
pub read_request-create_ipc_request :
    (conf : DeviceConfig)
    → IsOneLine conf
    → read_request (create_ipc_request conf).ipc_request ≡ device_settings conf
read_request-create_ipc_request conf h =
    ap read_request (sym (text_of-device conf))
    ∙ read-text_of (device_settings conf) (clean-device conf h).all

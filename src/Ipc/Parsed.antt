-- ===== src/Ipc/Parsed.antt =====
-- config.go and wireguard.go: the texts of a parsed configuration are of one line.
use model_lib.Base.{
  Bool-cases, Option, none, some, List, [], ◌∷◌, ◌≡◌, refl, sym, ap, ◌∙◌, inl, inr, subst, arith,
  Bytes, codes, All, Result, ok, err, bind-eq-ok, ok-injective, EachOk, nil, cons,
}
use model_lib.Strings.{contains, split, to_lower}
use model_lib.Net.{split_host_port}
use model_lib.Net.OneLine.{split_host_port-Lack, join_host_port-OneLine}
use model_lib.Encoding.Hex.{IsHexDigit}
use model_lib.Ini
use model_lib.Ini.{Key, Section}
use model_lib.Awg.Config.{ASecConfig}
use model_lib.Awg.Parse.Put.{text_or}
use model_lib.Awg.Parse.Read.{ReadFrom}
use model_lib.Config.Types.{World, Prefix, PeerConfig, DeviceConfig, Configuration}
use model_lib.Config.Values.{
  error_text, not_empty, parse_string, parse_list, parse_allowed_ips, resolve_ipp_and_port,
}
use model_lib.Config.Values.Laws.{entries, parse_parts_iff}
use model_lib.Config.Peers.Laws.{EndpointOf, PeerOf, PeersOf}
use model_lib.Config.File.{parse_config, wireguard_file}
use model_lib.Config.File.Laws.{DeviceOf, parse_config-ConfigurationOf}
use model_lib.Ipc.Settings.{OneLine, OneLineIf, ASecOneLine, PeerOneLine, IsOneLine}

-- No value of the section has a line break.
abbrev pub SectionOneLine : Section → Type 0
SectionOneLine s = (name : Bytes) (k : Key) → s.get_key name ≡ some k → OneLine k.string

-- What is assumed of the world: the addresses and prefixes of net and netip print on one line, and so do
-- the values of the files, of which ini allows longer ones in quotes.
pub record WorldOneLine (w : World) : Type 0 where
  pub ip : (host ip : Bytes) → w.resolve_ip_addr host ≡ ok ip → OneLine ip
  pub prefix : (s : Bytes) (p : Prefix) → w.parse_prefix s ≡ ok p → OneLine p.string
  pub files :
      (path : Bytes) (file : Ini.File) (name : Bytes) (sections : List Section)
      → w.load_sources path ≡ ok file
      → file.sections_by_name name ≡ some sections
      → All SectionOneLine sections

hex-OneLine : (h : Bytes) → All IsHexDigit h → OneLine h
hex-OneLine [] h = tt
hex-OneLine (c ∷ s) h =
    ((λ e. elim h.0 [ inl d ↦ omega arith | inr d ↦ omega arith ]), hex-OneLine s h.1)

to_lower-OneLine : (s : Bytes) → OneLine s → OneLine (to_lower s)
unfolding to_lower
to_lower-OneLine [] h = tt
to_lower-OneLine (c ∷ s) h = (ground (arith, h.0), to_lower-OneLine s h.1)

endpoint-OneLine :
    (w : World) (o : Option Key) (e : Option Bytes)
    → WorldOneLine w
    → ((k : Key) → o ≡ some k → OneLine k.string)
    → EndpointOf w o e
    → OneLineIf e
unfolding resolve_ipp_and_port
endpoint-OneLine w none e world given same = subst OneLineIf (sym same) tt
endpoint-OneLine w (some k) e world given (decoded, same, r) =
    let addr = to_lower k.string in
    let (parts, split, r3) = bind-eq-ok (split_host_port addr) _ r in
    let (ip, resolved, r4) = bind-eq-ok (w.resolve_ip_addr parts.0) _ r3 in
    let lack = split_host_port-Lack b'\n' addr (to_lower-OneLine k.string (given k refl)) split in
    subst OneLineIf (sym same) (
      subst OneLine (ok-injective r4)
        (join_host_port-OneLine ip parts.1 (world.ip parts.0 ip resolved) lack.1))

EachOk-All {ℓ} :
    {A : Type ℓ} (f : Bytes → Result A) (P : A → Type 0)
    → ((s : Bytes) (a : A) → f s ≡ ok a → P a)
    → (parts : List Bytes) (items : List A) → EachOk f parts items
    → All P items
EachOk-All f P each [] _ nil = tt
EachOk-All f P each (s ∷ parts) _ (cons {b = b} {others = results} e more) =
    (each s b e, EachOk-All f P each parts results more)

parse_list-All {ℓ} :
    {A : Type ℓ} (f : Bytes → Result A) (P : A → Type 0)
    → ((s : Bytes) (a : A) → f s ≡ ok a → P a)
    → (r : Result Bytes) {items : List A} → parse_list f r ≡ ok items
    → All P items
unfolding parse_list
parse_list-All f P each (ok key) {items} e =
    EachOk-All f P each (entries (split key b',')) items
      ((parse_parts_iff f (split key b',') items).0 e)
parse_list-All f P each (err bad) e = elim (Bool-cases (contains (error_text bad) not_empty)) [
  | inl empty ↦ subst (All P) (ok-injective (rw empty at e)) tt
  | inr other ↦ cc (rw other at e)
]

PeerOf-PeerOneLine :
    (w : World) (s : Section) (p : PeerConfig)
    → WorldOneLine w
    → SectionOneLine s
    → PeerOf w s p
    → PeerOneLine p
unfolding parse_allowed_ips
PeerOf-PeerOneLine w s p world lines of = record {
  public_key = hex-OneLine p.public_key of.keys.0.1;
  pre_shared_key = hex-OneLine p.pre_shared_key of.keys.1.1;
  endpoint =
      endpoint-OneLine w (s.get_key (codes "Endpoint")) p.endpoint world (lines (codes "Endpoint"))
        of.endpoint;
  allowed_ips =
      parse_list-All w.parse_prefix (λ ip. OneLine ip.string) world.prefix
        (parse_string w s (codes "AllowedIPs")) of.allowed_ips;
}

peers-OneLine :
    (w : World) (sections : List Section) (peers : List PeerConfig)
    → WorldOneLine w
    → All SectionOneLine sections
    → PeersOf w sections peers
    → All PeerOneLine peers
peers-OneLine w [] _ world lines nil = tt
peers-OneLine w (s ∷ sections) _ world lines (cons {b = p} {others = others} of more) =
    (PeerOf-PeerOneLine w s p world lines.0 of, peers-OneLine w sections others world lines.1 more)

text-OneLine :
    (s : Section) (name : Bytes)
    → SectionOneLine s
    → (o : Option Bytes) → o ≡ text_or (s.get_key name) none
    → OneLineIf o
text-OneLine s name lines o e = subst OneLineIf (sym e) (by_key (s.get_key name) refl)
  where
    by_key : (k : Option Key) → s.get_key name ≡ k → OneLineIf (text_or k none)
    by_key none f = tt
    by_key (some k) f = lines name k f

asec-OneLine :
    (s : Section) (r : Option ASecConfig) → SectionOneLine s → ReadFrom s r → ASecOneLine r
asec-OneLine s none lines read = tt
asec-OneLine s (some c) lines read = (
  text-OneLine s (codes "I1") lines c.i1 (ap (λ (x : ASecConfig). x.i1) read.fields),
  text-OneLine s (codes "I2") lines c.i2 (ap (λ (x : ASecConfig). x.i2) read.fields),
  text-OneLine s (codes "I3") lines c.i3 (ap (λ (x : ASecConfig). x.i3) read.fields),
  text-OneLine s (codes "I4") lines c.i4 (ap (λ (x : ASecConfig). x.i4) read.fields),
  text-OneLine s (codes "I5") lines c.i5 (ap (λ (x : ASecConfig). x.i5) read.fields),
)

device-IsOneLine :
    (w : World) (path : Bytes) (cfg : Ini.File) (d : DeviceConfig)
    → WorldOneLine w
    → w.load_sources path ≡ ok cfg
    → DeviceOf w cfg d
    → IsOneLine d
device-IsOneLine w path cfg d world loaded of =
    let interface =
      world.files path cfg (codes "Interface") (of.interface ∷ []) loaded of.only_interface in
    let peers = world.files path cfg (codes "Peer") of.peer_sections loaded of.peers_found in
    record {
      secret_key = hex-OneLine d.secret_key of.fields.key_digits.1;
      asec = asec-OneLine of.interface d.asec_config interface.0 of.fields.asec;
      peers = peers-OneLine w of.peer_sections d.peers world peers of.peers;
    }

-- The WireGuard file is a file that was loaded.
wireguard_file-loaded :
    (w : World) (path : Bytes) (cfg wg : Ini.File) (o : Option Key)
    → w.load_sources path ≡ ok cfg
    → wireguard_file w cfg o ≡ ok wg
    → (p : Bytes) × (w.load_sources p ≡ ok wg)
unfolding wireguard_file
wireguard_file-loaded w path cfg wg none loaded e = (path, loaded ∙ e)
wireguard_file-loaded w path cfg wg (some k) loaded e = (k.string, e)

pub parse_config-IsOneLine :
    (w : World) (path : Bytes) {c : Configuration}
    → WorldOneLine w
    → parse_config w path ≡ ok c
    → IsOneLine c.device
parse_config-IsOneLine w path {c} world parsed =
    let of = parse_config-ConfigurationOf w path parsed in
    let (p, loaded) =
      wireguard_file-loaded w path of.cfg of.wg_cfg ((of.cfg.section []).get_key (codes "WGConfig"))
        of.loaded of.wireguard in
    device-IsOneLine w p of.wg_cfg c.device world loaded of.device

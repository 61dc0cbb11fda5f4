-- ===== src/Config/Peers/Laws.antt =====
-- What accepted [Peer] sections become.
use model_lib.Base.{
  Option, none, some, List, [], ◌∷◌, ◌++◌, append_assoc, append-nil, ◌≡◌, ◌≢◌, refl, sym, ◌∙◌,
  subst, arith, codes, Bytes, ok, bind-eq-ok, bind-ok, ok-injective, Each, nil, cons, ap, ◌↔◌,
}
use model_lib.Encoding.{hex_digit, encode_hex}
use model_lib.Encoding.Hex.{encode_hex-All}
use model_lib.Ini
use model_lib.Ini.{Key, Section}
use model_lib.Config.Types.{World, PeerConfig}
use model_lib.Base.Int.{pos}
use model_lib.Strings.{to_lower}
use model_lib.Config.Values.{
  parse_string, parse_base64_key_to_hex, parse_allowed_ips, encode_base64_to_hex,
  resolve_ipp_and_port,
}
use model_lib.Config.Interface.Laws.{IntOf, optional_int-IntOf, IntOf-optional_int}
use model_lib.Config.Values.Laws.{IsHexKey, encode_base64_to_hex-IsHexKey}
use model_lib.Config.Interface.{optional_int}
use model_lib.Config.Peers.{
  no_pre_shared_key, parse_pre_shared_key, parse_endpoint, parse_peer, append_peers, with_sections,
  parse_peers,
}

-- Both keys of a peer have 64 hexadecimal digits.
abbrev pub HasKeys : PeerConfig → Type 0
HasKeys p = IsHexKey p.public_key × IsHexKey p.pre_shared_key

-- The key that stands for none is that of 32 zeros.
abbrev zeros : Bytes
zeros =
    0 ∷ 0 ∷ 0 ∷ 0 ∷ 0 ∷ 0 ∷ 0 ∷ 0 ∷ 0 ∷ 0 ∷ 0 ∷ 0 ∷ 0 ∷ 0 ∷ 0 ∷ 0 ∷ 0 ∷ 0 ∷ 0 ∷ 0 ∷ 0 ∷ 0 ∷ 0 ∷ 0
    ∷ 0 ∷ 0 ∷ 0 ∷ 0 ∷ 0 ∷ 0 ∷ 0 ∷ 0 ∷ []

no_pre_shared_key-IsHexKey : IsHexKey no_pre_shared_key
unfolding encode_hex hex_digit
no_pre_shared_key-IsHexKey = (refl, encode_hex-All zeros (omega arith))

parse_pre_shared_key-IsHexKey :
    (o : Option Key) {h : Bytes} → parse_pre_shared_key o ≡ ok h → IsHexKey h
unfolding parse_pre_shared_key
parse_pre_shared_key-IsHexKey none e = subst IsHexKey (ok-injective e) no_pre_shared_key-IsHexKey
parse_pre_shared_key-IsHexKey (some k) e = encode_base64_to_hex-IsHexKey k.string e

public_key-IsHexKey :
    (w : World) (s : Section) {h : Bytes}
    → parse_base64_key_to_hex w s (codes "PublicKey") ≡ ok h
    → IsHexKey h
unfolding parse_base64_key_to_hex
public_key-IsHexKey w s e =
    let (key, _, e') = bind-eq-ok (parse_string w s (codes "PublicKey")) _ e in
    encode_base64_to_hex-IsHexKey key e'

abbrev pub PreSharedOf : Option Key → Bytes → Type 0
PreSharedOf none key = key ≡ no_pre_shared_key
PreSharedOf (some k) key = encode_base64_to_hex k.string ≡ ok key

abbrev pub EndpointOf : World → Option Key → Option Bytes → Type 0
EndpointOf w none endpoint = endpoint ≡ none
EndpointOf w (some k) endpoint =
    (addr : Bytes) × (endpoint ≡ some addr) × (resolve_ipp_and_port w (to_lower k.string) ≡ ok addr)

-- The peer is what section `s` says.
pub record PeerOf (w : World) (s : Section) (p : PeerConfig) : Type 0 where
  pub public_key : parse_base64_key_to_hex w s (codes "PublicKey") ≡ ok p.public_key
  pub pre_shared_key : PreSharedOf (s.get_key (codes "PreSharedKey")) p.pre_shared_key
  pub endpoint : EndpointOf w (s.get_key (codes "Endpoint")) p.endpoint
  pub keep_alive : IntOf (s.get_key (codes "PersistentKeepalive")) (pos 0) p.keep_alive
  pub allowed_ips : parse_allowed_ips w s ≡ ok p.allowed_ips
  pub keys : HasKeys p

pre_shared_lem : (o : Option Key) (h : Bytes) → (parse_pre_shared_key o ≡ ok h) ↔ PreSharedOf o h
unfolding parse_pre_shared_key
pre_shared_lem none h = ((λ e. sym (ok-injective e)), λ e. ap ok (sym e))
pre_shared_lem (some k) h = ((λ e. e), λ e. e)

endpoint_lem :
    (w : World) (o : Option Key) (addr : Option Bytes)
    → (parse_endpoint w o ≡ ok addr) ↔ EndpointOf w o addr
unfolding parse_endpoint
endpoint_lem w none addr = ((λ e. sym (ok-injective e)), λ e. ap ok (sym e))
endpoint_lem w (some k) addr = (
  (λ e.
      let (decoded, r, e') = bind-eq-ok (resolve_ipp_and_port w (to_lower k.string)) _ e in
      (decoded, sym (ok-injective e'), r)),
  λ (decoded, same, r). bind-ok _ r (ap ok (sym same)),
)

parse_peer-PeerOf :
    (w : World) (s : Section) {p : PeerConfig} → parse_peer w s ≡ ok p → PeerOf w s p
unfolding parse_peer
parse_peer-PeerOf w s e0 =
    let (pub_key, r1, e1) = bind-eq-ok (parse_base64_key_to_hex w s (codes "PublicKey")) _ e0 in
    let (psk, r2, e2) = bind-eq-ok (parse_pre_shared_key (s.get_key (codes "PreSharedKey"))) _ e1 in
    let (endpoint, r3, e3) = bind-eq-ok (parse_endpoint w (s.get_key (codes "Endpoint"))) _ e2 in
    let (alive, r4, e4) =
      bind-eq-ok (optional_int (s.get_key (codes "PersistentKeepalive"))) _ e3 in
    let (ips, r5, e5) = bind-eq-ok (parse_allowed_ips w s) _ e4 in
    subst (PeerOf w s) (ok-injective e5) (record {
      public_key = r1;
      pre_shared_key = (pre_shared_lem _ psk).0 r2;
      endpoint = (endpoint_lem w _ endpoint).0 r3;
      keep_alive = optional_int-IntOf _ (pos 0) r4;
      allowed_ips = r5;
      keys = (
        public_key-IsHexKey w s r1,
        parse_pre_shared_key-IsHexKey (s.get_key (codes "PreSharedKey")) r2,
      );
    })

PeerOf-parse_peer :
    (w : World) (s : Section) (p : PeerConfig) → PeerOf w s p → parse_peer w s ≡ ok p
unfolding parse_peer
PeerOf-parse_peer w s p of =
    let (alive, r4, same) =
      IntOf-optional_int (s.get_key (codes "PersistentKeepalive")) (pos 0) of.keep_alive in
    bind-ok _ of.public_key (
      bind-ok _ ((pre_shared_lem _ p.pre_shared_key).1 of.pre_shared_key) (
        bind-ok _ ((endpoint_lem w _ p.endpoint).1 of.endpoint)
          (bind-ok _ r4 (bind-ok _ of.allowed_ips (λ i. ok (record p { keep_alive = same i }))))))

-- `new` are the peers of the sections, in their order.
abbrev pub PeersOf : World → List Section → List PeerConfig → Type 0
PeersOf w = Each (PeerOf w)

append_peers_lem :
    (w : World) (sections : List Section) (peers : List PeerConfig) {all : List PeerConfig}
    → append_peers w sections peers ≡ ok all
    → (new : List PeerConfig) × (all ≡ peers ++ new) × PeersOf w sections new
unfolding append_peers
append_peers_lem w [] peers e = ([], sym (ok-injective e) ∙ sym (append-nil peers), nil)
append_peers_lem w (s ∷ sections) peers e =
    let (p, parsed, e') = bind-eq-ok (parse_peer w s) _ e in
    let (new, same, of) = append_peers_lem w sections (peers ++ p ∷ []) e' in
    (p ∷ new, same ∙ append_assoc peers (p ∷ []) new, cons (parse_peer-PeerOf w s parsed) of)

PeersOf-append_peers :
    (w : World) (peers : List PeerConfig) {sections : List Section} {new : List PeerConfig}
    → PeersOf w sections new
    → append_peers w sections peers ≡ ok (peers ++ new)
unfolding append_peers
PeersOf-append_peers w peers nil = ap ok (sym (append-nil peers))
PeersOf-append_peers w peers (cons {a = s} {b = p} {others = others} of more) =
    bind-ok _ (PeerOf-parse_peer w s p of)
      (PeersOf-append_peers w (peers ++ p ∷ []) more ∙ ap ok (append_assoc peers (p ∷ []) others))

pub parse_peers-PeersOf :
    (w : World) (cfg : Ini.File) (peers : List PeerConfig) {all : List PeerConfig}
    → parse_peers w cfg peers ≡ ok all
    → (sections : List Section) × (new : List PeerConfig) × (cfg.sections_by_name (codes "Peer")
        ≡ some sections)
      × (sections ≢ [])
      × (all ≡ peers ++ new)
      × PeersOf w sections new
unfolding parse_peers
parse_peers-PeersOf w cfg peers {all} e = go (cfg.sections_by_name (codes "Peer")) refl e
  where
    go :
        (o : Option (List Section))
        → cfg.sections_by_name (codes "Peer") ≡ o
        → with_sections w o peers ≡ ok all
        → (sections : List Section) × (new : List PeerConfig) × (cfg.sections_by_name (codes "Peer")
            ≡ some sections)
          × (sections ≢ [])
          × (all ≡ peers ++ new)
          × PeersOf w sections new
    go none f e = cc
    go (some []) f e = cc
    go (some (s ∷ more)) f e =
        let (new, same, of) = append_peers_lem w (s ∷ more) peers e in
        (s ∷ more, new, f, cc, same, of)

some_sections :
    (w : World) (sections : List Section) (peers : List PeerConfig)
    → sections ≢ []
    → with_sections w (some sections) peers ≡ append_peers w sections peers
unfolding with_sections append_peers
some_sections w [] peers some_peer = absurd (some_peer refl)
some_sections w (s ∷ sections) peers some_peer = refl

-- Peers are accepted exactly if there is at least one [Peer] section; and then there is one peer for
-- each section, in the order of the sections, behind the peers that were there: with the keys of the
-- section, public and preshared, each of 64 hexadecimal digits, with its endpoint, resolved, with its
-- keepalive or zero, and with its allowed addresses.
pub parse_peers_iff :
    (w : World) (cfg : Ini.File) (peers all : List PeerConfig)
    → (parse_peers w cfg peers ≡ ok all) ↔ (
        (sections : List Section) × (new : List PeerConfig) × (cfg.sections_by_name (codes "Peer")
          ≡ some sections)
        × (sections ≢ [])
        × (all ≡ peers ++ new)
        × PeersOf w sections new)
unfolding parse_peers
parse_peers_iff w cfg peers all = (
  parse_peers-PeersOf w cfg peers,
  λ (sections, new, found, some_peer, same, of).
      ap (λ o. with_sections w o peers) found
      ∙ some_sections w sections peers some_peer
      ∙ PeersOf-append_peers w peers of
      ∙ ap ok (sym same),
)

-- ===== src/Ipc/Start/Tests.antt =====
-- A device of the sample configuration.
use model_lib.Base.{
  Bool-cases, none, some, List, [], ◌∷◌, ◌≡◌, sym, inl, inr, subst, arith, Bytes, codes, All, equal,
  ok-injective,
}
use model_lib.Base.Int.{pos}
use model_lib.Ini
use model_lib.Ini.{Section, Key}
use model_lib.Ini.Sample.{section_of, find_key, find_sections, key_of}
use model_lib.Strings.{to_lower}
use model_lib.Config.Sample.{
  interface, peer, socks_entries, server, world, configuration, parse_config-file,
}
use model_lib.Config.Types.{Prefix}
use model_lib.Ipc.Settings.{OneLine}
use model_lib.Ipc.Parsed.{SectionOneLine, WorldOneLine}
use model_lib.Ipc.Start.{Answers, start_wireguard}
use model_lib.Ipc.Start.Laws.{StartedAs, start_wireguard-StartedAs}

some-injective {ℓ} : {A : Type ℓ} {a b : A} → some a ≡ some b → a ≡ b
some-injective e = cc

section_of-SectionOneLine :
    (entries : List (Bytes × Bytes))
    → All (λ (e : Bytes × Bytes). OneLine e.1) entries
    → SectionOneLine (section_of entries)
unfolding find_key key_of
section_of-SectionOneLine [] lines name k e = cc
section_of-SectionOneLine ((key, value) ∷ entries) lines name k e =
    elim (Bool-cases (equal key (to_lower name))) [
      | inl here ↦ subst (λ (x : Key). OneLine x.string) (some-injective (rw here at e)) lines.0
      | inr other ↦ section_of-SectionOneLine entries lines.1 name k (rw other at e)
    ]

find_sections-All :
    (named : List (Bytes × List Section)) (name : Bytes) (sections : List Section)
    → All (λ (e : Bytes × List Section). All SectionOneLine e.1) named
    → find_sections named name ≡ some sections
    → All SectionOneLine sections
unfolding find_sections
find_sections-All [] name sections lines e = cc
find_sections-All ((key, found) ∷ named) name sections lines e =
    elim (Bool-cases (equal key name)) [
      | inl here ↦ subst (All SectionOneLine) (some-injective (rw here at e)) lines.0
      | inr other ↦ find_sections-All named name sections lines.1 (rw other at e)
    ]

named : List (Bytes × List Section)
named =
    (codes "Interface", interface ∷ [])
    ∷ (codes "Peer", peer ∷ [])
    ∷ (codes "Socks5", section_of socks_entries ∷ [])
    ∷ (codes "TCPServerTunnel", server ∷ [])
    ∷ []

named-OneLine : All (λ (e : Bytes × List Section). All SectionOneLine e.1) named
unfolding named
named-OneLine = (
  (section_of-SectionOneLine _ (omega arith), tt),
  (
    (section_of-SectionOneLine _ (omega arith), tt),
    (
      (section_of-SectionOneLine _ (omega arith), tt),
      ((section_of-SectionOneLine _ (omega arith), tt), tt),
    ),
  ),
)

world-WorldOneLine : WorldOneLine world
unfolding named
world-WorldOneLine = record {
  ip = λ host ip e. subst OneLine (ok-injective e) (omega arith);
  prefix = λ s p e. subst (λ (q : Prefix). OneLine q.string) (ok-injective e) (omega arith);
  files = λ path f name sections loaded found. find_sections-All named name sections named-OneLine (
      subst (λ (g : Ini.File). g.sections_by_name name ≡ some sections) (sym (ok-injective loaded))
        found);
}

abbrev answers : Answers
answers = record { tun_error = none; ipc_set_error = none; up_error = none }

start_wireguard-StartedAs_example :
    StartedAs configuration.device answers (start_wireguard configuration.device (pos 2) answers)
start_wireguard-StartedAs_example =
    start_wireguard-StartedAs world (codes "a.conf") configuration (pos 2) answers
      world-WorldOneLine (parse_config-file (codes "a.conf"))

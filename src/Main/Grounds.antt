-- ===== src/Main/Grounds.antt =====
-- What each rule for the network is there for.
use model_lib.Base.{
  ℕ, List, [], ◌∷◌, ◌++◌, ◌≡◌, ◌⊎◌, refl, subst, inl, inr, Bytes, All, All-append, ok, ◌>>=◌,
  bind-eq-ok, ok-injective,
}
use model_lib.Config.Types.{RoutineSpawner, tcp_client, stdio, tcp_server, socks5, http, udp_proxy}
use model_lib.Main.{
  to_uint16, extract_port, Rule, bind_tcp, connect_tcp, rule_of, section_rules, info_rules,
}

-- The routine is the reason for the rule: a proxy for its binding, a TCP tunnel for a connection.
abbrev pub IsFor : RoutineSpawner → Rule → Type 0
IsFor (socks5 c) (bind_tcp port) = extract_port c.bind_address ≡ ok port
IsFor (http c) (bind_tcp port) = extract_port c.bind_address ≡ ok port
IsFor (tcp_server c) (connect_tcp port) = extract_port c.target ≡ ok port
IsFor (tcp_client c) (connect_tcp port) = to_uint16 c.bind_address.port ≡ port
IsFor (socks5 c) (connect_tcp port) = ⊥
IsFor (http c) (connect_tcp port) = ⊥
IsFor (tcp_server c) (bind_tcp port) = ⊥
IsFor (tcp_client c) (bind_tcp port) = ⊥
IsFor (stdio c) rule = ⊥
IsFor (udp_proxy c) rule = ⊥

abbrev pub IsForOne : List RoutineSpawner → Rule → Type 0
IsForOne [] rule = ⊥
IsForOne (r ∷ routines) rule = IsFor r rule ⊎ IsForOne routines rule

-- The health service is the reason for the rule.
abbrev pub IsForInfo : Bytes → Rule → Type 0
IsForInfo addr (bind_tcp port) = extract_port addr ≡ ok port
IsForInfo addr (connect_tcp port) = ⊥

All-mono :
    (P Q : Rule → Type 0)
    → ((rule : Rule) → P rule → Q rule)
    → (rules : List Rule) → All P rules
    → All Q rules
All-mono P Q f [] h = tt
All-mono P Q f (rule ∷ rules) h = (f rule h.0, All-mono P Q f rules h.1)

-- A port that is read, and the one rule for it.
All-port :
    (P : Rule → Type 0) (addr : Bytes) (make : ℕ → Rule) {rules : List Rule}
    → ((port : ℕ) → extract_port addr ≡ ok port → P (make port))
    → (do port ← extract_port addr; ok (make port ∷ [])) ≡ ok rules
    → All P rules
All-port P addr make h e =
    let (port, found, e') = bind-eq-ok (extract_port addr) _ e in
    subst (All P) (ok-injective e') (h port found, tt)

rule_of-IsFor :
    (r : RoutineSpawner) {rules : List Rule} → rule_of r ≡ ok rules → All (IsFor r) rules
unfolding rule_of
rule_of-IsFor (tcp_client c) e = subst (All (IsFor (tcp_client c))) (ok-injective e) (refl, tt)
rule_of-IsFor (tcp_server c) e =
    All-port (IsFor (tcp_server c)) c.target connect_tcp (λ port found. found) e
rule_of-IsFor (socks5 c) e =
    All-port (IsFor (socks5 c)) c.bind_address bind_tcp (λ port found. found) e
rule_of-IsFor (http c) e = All-port (IsFor (http c)) c.bind_address bind_tcp (λ port found. found) e
rule_of-IsFor (stdio c) e = subst (All (IsFor (stdio c))) (ok-injective e) tt
rule_of-IsFor (udp_proxy c) e = subst (All (IsFor (udp_proxy c))) (ok-injective e) tt

pub section_rules-IsForOne :
    (routines : List RoutineSpawner) {rules : List Rule}
    → section_rules routines ≡ ok rules
    → All (IsForOne routines) rules
unfolding section_rules
section_rules-IsForOne [] e = subst (All (IsForOne [])) (ok-injective e) tt
section_rules-IsForOne (r ∷ routines) e =
    let (first, of_r, e') = bind-eq-ok (rule_of r) _ e in
    let (others, of_rest, e'') = bind-eq-ok (section_rules routines) _ e' in
    let one = IsForOne (r ∷ routines) in
    subst (All one) (ok-injective e'') (
      All-append one first others
        (All-mono (IsFor r) one (λ rule h. inl h) first (rule_of-IsFor r of_r))
        (All-mono (IsForOne routines) one (λ rule h. inr h) others
          (section_rules-IsForOne routines of_rest)))

pub info_rules-IsForInfo :
    (addr : Bytes) {rules : List Rule} → info_rules addr ≡ ok rules → All (IsForInfo addr) rules
unfolding info_rules
info_rules-IsForInfo [] e = subst (All (IsForInfo [])) (ok-injective e) tt
info_rules-IsForInfo (c ∷ addr) e =
    All-port (IsForInfo (c ∷ addr)) (c ∷ addr) bind_tcp (λ port found. found) e

-- The reason for a rule among those of `lockNetwork`.
abbrev pub Founded : List RoutineSpawner → Bytes → Rule → Type 0
Founded routines info rule = IsForInfo info rule ⊎ IsForOne routines rule

pub Founded-append :
    (routines : List RoutineSpawner) (info : Bytes) {first others : List Rule}
    → info_rules info ≡ ok first
    → section_rules routines ≡ ok others
    → All (Founded routines info) (first ++ others)
Founded-append routines info {first} {others} of_info of_routines =
    let founded = Founded routines info in
    All-append founded first others
      (All-mono (IsForInfo info) founded (λ rule h. inl h) first
        (info_rules-IsForInfo info of_info))
      (All-mono (IsForOne routines) founded (λ rule h. inr h) others
        (section_rules-IsForOne routines of_routines))

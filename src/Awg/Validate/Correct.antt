-- ===== src/Awg/Validate/Correct.antt =====
-- awg_config.go: `ValidateASecConfig` against the specification in Spec.
use model_lib.Base.{some, ◌≡◌, ◌↔◌, arith, ok, bind-eq-ok}
use model_lib.Awg.Config.{ASecConfig}
use model_lib.Awg.Validate.{check_junk, check_sizes, packet_sizes, validate_asec_config}
use model_lib.Awg.Validate.Spec.{JunkInRange, IsValid}
use model_lib.Awg.Validate.Sizes.{check_sizes_iff}
use model_lib.Awg.Validate.Headers.{check_headers-Spec, Spec-check_headers}

check_junk-JunkInRange : (c : ASecConfig) → check_junk c ≡ ok tt → JunkInRange c
unfolding check_junk
check_junk-JunkInRange c e = record {
  count = λ h. ground arith;
  sizes_ordered = λ h k. ground arith;
  max_size = λ h. ground arith;
}

JunkInRange-check_junk : (c : ASecConfig) → JunkInRange c → check_junk c ≡ ok tt
unfolding check_junk
JunkInRange-check_junk c j = ground (arith, j.count, j.sizes_ordered, j.max_size)

validate-IsValid : (c : ASecConfig) → validate_asec_config (some c) ≡ ok tt → IsValid c
unfolding validate_asec_config
validate-IsValid c e =
    let (_, junk, e') = bind-eq-ok (check_junk c) _ e in
    let (_, sizes, headers) = bind-eq-ok (check_sizes c (packet_sizes c)) _ e' in
    let (ordered, differ) = check_headers-Spec c headers in
    record {
      junk = check_junk-JunkInRange c junk;
      sizes = (check_sizes_iff c).0 sizes;
      ordered = ordered;
      headers = differ;
    }

IsValid-validate : (c : ASecConfig) → IsValid c → validate_asec_config (some c) ≡ ok tt
unfolding validate_asec_config
IsValid-validate c v =
    rw (JunkInRange-check_junk c v.junk, (check_sizes_iff c).1 v.sizes)
      (Spec-check_headers c v.ordered v.headers)

-- A configuration is accepted exactly if it is valid: Jc lies in 1 to 128 and Jmax is at most 1280
-- where they are given, Jmin is at most Jmax where both are, the padded sizes of two kinds of packets
-- differ where both are given, the bounds of H1 to H4 are in order, and no header is taken for two
-- kinds of packets.
pub validate_iff : (c : ASecConfig) → (validate_asec_config (some c) ≡ ok tt) ↔ IsValid c
validate_iff c = (validate-IsValid c, IsValid-validate c)

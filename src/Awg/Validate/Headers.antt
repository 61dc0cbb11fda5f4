-- ===== src/Awg/Validate/Headers.antt =====
-- awg_config.go: the checks of the magic headers in `ValidateASecConfig`.
use model_lib.Base.{some, List, [], ◌∷◌, ◌≡◌, refl, arith, ok, bind-eq-ok}
use model_lib.Awg.Config.{ASecConfig}
use model_lib.Awg.Header.{HeaderInterval}
use model_lib.Awg.Header.Overlap.{AllOrdered, AllDisjoint, overlapping_iff}
use model_lib.Awg.Validate.{collect_effective_header_intervals, check_order, check_headers}
use model_lib.Awg.Validate.Spec.{
  initiation, response, cookie_reply, transport, HeadersOrdered, HeadersDiffer,
}

check_order-AllOrdered : (l : List HeaderInterval) → check_order l ≡ ok tt → AllOrdered l
unfolding check_order
check_order-AllOrdered [] e = tt
check_order-AllOrdered (i ∷ rest) e = ((ground arith), check_order-AllOrdered rest (ground arith))

AllOrdered-check_order : (l : List HeaderInterval) → AllOrdered l → check_order l ≡ ok tt
unfolding check_order
AllOrdered-check_order [] o = refl
AllOrdered-check_order (i ∷ rest) o = ground (arith, AllOrdered-check_order rest o.1)

AllDisjoint-HeadersDiffer :
    (c : ASecConfig) → AllDisjoint (collect_effective_header_intervals (some c)) → HeadersDiffer c
unfolding collect_effective_header_intervals
AllDisjoint-HeadersDiffer c d initiation response n h k e = d.0.0 h k e
AllDisjoint-HeadersDiffer c d initiation cookie_reply n h k e = d.0.1.0 h k e
AllDisjoint-HeadersDiffer c d initiation transport n h k e = d.0.1.1.0 h k e
AllDisjoint-HeadersDiffer c d response cookie_reply n h k e = d.1.0.0 h k e
AllDisjoint-HeadersDiffer c d response transport n h k e = d.1.0.1.0 h k e
AllDisjoint-HeadersDiffer c d cookie_reply transport n h k e = d.1.1.0.0 h k e
AllDisjoint-HeadersDiffer c d response initiation n h k e = d.0.0 h e k
AllDisjoint-HeadersDiffer c d cookie_reply initiation n h k e = d.0.1.0 h e k
AllDisjoint-HeadersDiffer c d transport initiation n h k e = d.0.1.1.0 h e k
AllDisjoint-HeadersDiffer c d cookie_reply response n h k e = d.1.0.0 h e k
AllDisjoint-HeadersDiffer c d transport response n h k e = d.1.0.1.0 h e k
AllDisjoint-HeadersDiffer c d transport cookie_reply n h k e = d.1.1.0.0 h e k
AllDisjoint-HeadersDiffer c d _ _ n h k e = n refl

HeadersDiffer-AllDisjoint :
    (c : ASecConfig) → HeadersDiffer c → AllDisjoint (collect_effective_header_intervals (some c))
unfolding collect_effective_header_intervals
HeadersDiffer-AllDisjoint c s = (
  (s initiation response (cc), (s initiation cookie_reply (cc), (s initiation transport (cc), tt))),
  (
    (s response cookie_reply (cc), (s response transport (cc), tt)),
    ((s cookie_reply transport (cc), tt), (tt, tt)),
  ),
)

AllOrdered-HeadersOrdered :
    (c : ASecConfig) → AllOrdered (collect_effective_header_intervals (some c)) → HeadersOrdered c
unfolding collect_effective_header_intervals
AllOrdered-HeadersOrdered c o initiation = o.0
AllOrdered-HeadersOrdered c o response = o.1.0
AllOrdered-HeadersOrdered c o cookie_reply = o.1.1.0
AllOrdered-HeadersOrdered c o transport = o.1.1.1.0

HeadersOrdered-AllOrdered :
    (c : ASecConfig) → HeadersOrdered c → AllOrdered (collect_effective_header_intervals (some c))
unfolding collect_effective_header_intervals
HeadersOrdered-AllOrdered c o = (o initiation, (o response, (o cookie_reply, (o transport, tt))))

pub check_headers-Spec :
    (c : ASecConfig)
    → check_headers (collect_effective_header_intervals (some c)) ≡ ok tt
    → HeadersOrdered c × HeadersDiffer c
unfolding check_headers
check_headers-Spec c e =
    let l = collect_effective_header_intervals (some c) in
    let (_, ordered, rest) = bind-eq-ok (check_order l) _ e in
    let o = check_order-AllOrdered l ordered in
    (
      AllOrdered-HeadersOrdered c o,
      AllDisjoint-HeadersDiffer c ((overlapping_iff l o).0 (ground arith)),
    )

pub Spec-check_headers :
    (c : ASecConfig)
    → HeadersOrdered c
    → HeadersDiffer c
    → check_headers (collect_effective_header_intervals (some c)) ≡ ok tt
unfolding check_headers
Spec-check_headers c o d =
    let l = collect_effective_header_intervals (some c) in
    let all = HeadersOrdered-AllOrdered c o in
    rw (AllOrdered-check_order l all, (overlapping_iff l all).1 (HeadersDiffer-AllDisjoint c d))

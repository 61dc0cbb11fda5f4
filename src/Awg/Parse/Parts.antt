-- ===== src/Awg/Parse/Parts.antt =====
-- What the parts of ParseASecConfig read: the sizes, the headers and the packets.
use model_lib.Base.{Bool, Option, is_some, ◌≡◌, ap, ◌∙◌, codes, ok, bind-eq-ok}
use model_lib.Ini.{Section}
use model_lib.Awg.Config.{ASecConfig}
use model_lib.Awg.Parse.{
  or_zero, read_int, read_interval, read_text, store_jc, store_jmin, store_jmax, store_s1, store_s2,
  store_s3, store_h1, store_h2, store_h3, store_i1, store_i2, store_i3, store_i4, read_sizes,
  read_headers, read_packets,
}
use model_lib.Awg.Parse.Put.{
  given_or, put_jc, put_jmin, put_jmax, put_s1, put_s2, put_s3, put_s4, put_h1, put_h2, put_h3,
  put_h4, put_i1, put_i2, put_i3, put_i4, put_i5,
}
use model_lib.Awg.Parse.Blocks.{
  jc-Took, jmin-Took, jmax-Took, s1-Took, s2-Took, s3-Took, s4-Took, h1-Took, h2-Took, h3-Took,
  h4-Took, i1-Took, i2-Took, i3-Took, i4-Took, i5-Took,
}

abbrev sizes_of : Section → ASecConfig → ASecConfig
sizes_of s c = put_s4 (s.get_key (codes "S4")) (
    put_s3 (s.get_key (codes "S3")) (
      put_s2 (s.get_key (codes "S2")) (
        put_s1 (s.get_key (codes "S1")) (
          put_jmax (s.get_key (codes "Jmax"))
            (put_jmin (s.get_key (codes "Jmin")) (put_jc (s.get_key (codes "Jc")) c))))))

abbrev pub sizes_given : Section → Bool → Bool
sizes_given s b = given_or (s.get_key (codes "S4")) (
    given_or (s.get_key (codes "S3")) (
      given_or (s.get_key (codes "S2")) (
        given_or (s.get_key (codes "S1")) (
          given_or (s.get_key (codes "Jmax"))
            (given_or (s.get_key (codes "Jmin")) (given_or (s.get_key (codes "Jc")) b))))))

abbrev pub headers_of : Section → ASecConfig → ASecConfig
headers_of s c = put_h4 (s.get_key (codes "H4")) (
    put_h3 (s.get_key (codes "H3"))
      (put_h2 (s.get_key (codes "H2")) (put_h1 (s.get_key (codes "H1")) c)))

abbrev pub headers_given : Section → Bool → Bool
headers_given s b = given_or (s.get_key (codes "H4")) (
    given_or (s.get_key (codes "H3"))
      (given_or (s.get_key (codes "H2")) (given_or (s.get_key (codes "H1")) b)))

abbrev pub packets_of : Section → ASecConfig → ASecConfig
packets_of s c = put_i5 (s.get_key (codes "I5")) (
    put_i4 (s.get_key (codes "I4")) (
      put_i3 (s.get_key (codes "I3"))
        (put_i2 (s.get_key (codes "I2")) (put_i1 (s.get_key (codes "I1")) c))))

abbrev pub packets_given : Section → Bool → Bool
packets_given s b = given_or (s.get_key (codes "I5")) (
    given_or (s.get_key (codes "I4")) (
      given_or (s.get_key (codes "I3"))
        (given_or (s.get_key (codes "I2")) (given_or (s.get_key (codes "I1")) b))))

pub read_sizes_lem :
    (s : Section) (c0 : Option ASecConfig) {d : Option ASecConfig}
    → read_sizes s c0 ≡ ok d
    → (or_zero d ≡ sizes_of s (or_zero c0)) × (is_some d ≡ sizes_given s (is_some c0))
unfolding read_sizes
read_sizes_lem s c0 e0 =
    let (c1, r1, e1) = bind-eq-ok (read_int store_jc (s.get_key (codes "Jc")) c0) _ e0 in
    let (c2, r2, e2) = bind-eq-ok (read_int store_jmin (s.get_key (codes "Jmin")) c1) _ e1 in
    let (c3, r3, e3) = bind-eq-ok (read_int store_jmax (s.get_key (codes "Jmax")) c2) _ e2 in
    let (c4, r4, e4) = bind-eq-ok (read_int store_s1 (s.get_key (codes "S1")) c3) _ e3 in
    let (c5, r5, e5) = bind-eq-ok (read_int store_s2 (s.get_key (codes "S2")) c4) _ e4 in
    let (c6, r6, e6) = bind-eq-ok (read_int store_s3 (s.get_key (codes "S3")) c5) _ e5 in
    let t1 = jc-Took (s.get_key (codes "Jc")) c0 r1 in
    let t2 = jmin-Took (s.get_key (codes "Jmin")) c1 r2 in
    let t3 = jmax-Took (s.get_key (codes "Jmax")) c2 r3 in
    let t4 = s1-Took (s.get_key (codes "S1")) c3 r4 in
    let t5 = s2-Took (s.get_key (codes "S2")) c4 r5 in
    let t6 = s3-Took (s.get_key (codes "S3")) c5 r6 in
    let t7 = s4-Took (s.get_key (codes "S4")) c6 e6 in
    (
      t7.0
          ∙ ap (put_s4 (s.get_key (codes "S4"))) (
              t6.0
              ∙ ap (put_s3 (s.get_key (codes "S3"))) (
                  t5.0
                  ∙ ap (put_s2 (s.get_key (codes "S2"))) (
                      t4.0
                      ∙ ap (put_s1 (s.get_key (codes "S1"))) (
                          t3.0
                          ∙ ap (put_jmax (s.get_key (codes "Jmax")))
                              (t2.0 ∙ ap (put_jmin (s.get_key (codes "Jmin"))) (t1.0)))))),
      t7.1
          ∙ ap (given_or (s.get_key (codes "S4"))) (
              t6.1
              ∙ ap (given_or (s.get_key (codes "S3"))) (
                  t5.1
                  ∙ ap (given_or (s.get_key (codes "S2"))) (
                      t4.1
                      ∙ ap (given_or (s.get_key (codes "S1"))) (
                          t3.1
                          ∙ ap (given_or (s.get_key (codes "Jmax")))
                              (t2.1 ∙ ap (given_or (s.get_key (codes "Jmin"))) (t1.1)))))),
    )

pub read_headers_lem :
    (s : Section) (c0 : Option ASecConfig) {d : Option ASecConfig}
    → read_headers s c0 ≡ ok d
    → (or_zero d ≡ headers_of s (or_zero c0)) × (is_some d ≡ headers_given s (is_some c0))
unfolding read_headers
read_headers_lem s c0 e0 =
    let (c1, r1, e1) = bind-eq-ok (read_interval store_h1 (s.get_key (codes "H1")) c0) _ e0 in
    let (c2, r2, e2) = bind-eq-ok (read_interval store_h2 (s.get_key (codes "H2")) c1) _ e1 in
    let (c3, r3, e3) = bind-eq-ok (read_interval store_h3 (s.get_key (codes "H3")) c2) _ e2 in
    let t1 = h1-Took (s.get_key (codes "H1")) c0 r1 in
    let t2 = h2-Took (s.get_key (codes "H2")) c1 r2 in
    let t3 = h3-Took (s.get_key (codes "H3")) c2 r3 in
    let t4 = h4-Took (s.get_key (codes "H4")) c3 e3 in
    (
      t4.0
          ∙ ap (put_h4 (s.get_key (codes "H4"))) (
              t3.0
              ∙ ap (put_h3 (s.get_key (codes "H3")))
                  (t2.0 ∙ ap (put_h2 (s.get_key (codes "H2"))) (t1.0))),
      t4.1
          ∙ ap (given_or (s.get_key (codes "H4"))) (
              t3.1
              ∙ ap (given_or (s.get_key (codes "H3")))
                  (t2.1 ∙ ap (given_or (s.get_key (codes "H2"))) (t1.1))),
    )

pub read_packets_lem :
    (s : Section) (c0 : Option ASecConfig)
    → (or_zero (read_packets s c0) ≡ packets_of s (or_zero c0))
      × (is_some (read_packets s c0) ≡ packets_given s (is_some c0))
unfolding read_packets
read_packets_lem s c0 =
    let k1 = s.get_key (codes "I1") in
    let k2 = s.get_key (codes "I2") in
    let k3 = s.get_key (codes "I3") in
    let k4 = s.get_key (codes "I4") in
    let k5 = s.get_key (codes "I5") in
    let t1 = i1-Took k1 c0 in
    let c1 = read_text store_i1 k1 c0 in
    let t2 = i2-Took k2 c1 in
    let c2 = read_text store_i2 k2 c1 in
    let t3 = i3-Took k3 c2 in
    let c3 = read_text store_i3 k3 c2 in
    let t4 = i4-Took k4 c3 in
    let c4 = read_text store_i4 k4 c3 in
    let t5 = i5-Took k5 c4 in
    (
      t5.0
          ∙ ap (put_i5 k5)
              (t4.0 ∙ ap (put_i4 k4) (t3.0 ∙ ap (put_i3 k3) (t2.0 ∙ ap (put_i2 k2) (t1.0)))),
      t5.1
          ∙ ap (given_or k5)
              (t4.1 ∙ ap (given_or k4) (t3.1 ∙ ap (given_or k3) (t2.1 ∙ ap (given_or k2) (t1.1)))),
    )

-- ===== src/Awg/Parse/Readable.antt =====
-- awg_config.go: the options of a section that ParseASecConfig can read, and that it reads them.
use model_lib.Base.{
  ℕ, Option, none, some, ◌≡◌, refl, codes, ok, bind-eq-ok, Succeeds, Succeeds-bind,
}
use model_lib.Base.Int.{ℤ}
use model_lib.Ini.{Key, Section}
use model_lib.Awg.Config.{ASecConfig}
use model_lib.Awg.Header.{parse_magic_header_interval}
use model_lib.Awg.Parse.{
  read_int, read_interval, store_jc, store_jmin, store_jmax, store_s1, store_s2, store_s3, store_s4,
  store_h1, store_h2, store_h3, store_h4, read_sizes, read_headers,
}

-- The option is missing or a number.
abbrev pub IsNumber : Option Key → Type 0
IsNumber none = Unit
IsNumber (some k) = (n : ℤ) × (k.int ≡ ok n)

-- The option is missing or an interval of headers.
abbrev pub IsInterval : Option Key → Type 0
IsInterval none = Unit
IsInterval (some k) = (b : ℕ × ℕ) × (parse_magic_header_interval k.string ≡ ok b)

pub record Readable (s : Section) : Type 0 where
  pub jc : IsNumber (s.get_key (codes "Jc"))
  pub jmin : IsNumber (s.get_key (codes "Jmin"))
  pub jmax : IsNumber (s.get_key (codes "Jmax"))
  pub s1 : IsNumber (s.get_key (codes "S1"))
  pub s2 : IsNumber (s.get_key (codes "S2"))
  pub s3 : IsNumber (s.get_key (codes "S3"))
  pub s4 : IsNumber (s.get_key (codes "S4"))
  pub h1 : IsInterval (s.get_key (codes "H1"))
  pub h2 : IsInterval (s.get_key (codes "H2"))
  pub h3 : IsInterval (s.get_key (codes "H3"))
  pub h4 : IsInterval (s.get_key (codes "H4"))

module _ (store : ℤ → ASecConfig → ASecConfig) where
  read_int-IsNumber :
      (o : Option Key) (c : Option ASecConfig) {d : Option ASecConfig}
      → read_int store o c ≡ ok d
      → IsNumber o
  unfolding read_int
  read_int-IsNumber none c e = tt
  read_int-IsNumber (some k) c e = let (n, int, _) = bind-eq-ok k.int _ e in (n, int)

  read_int-Succeeds :
      (o : Option Key) → IsNumber o → (c : Option ASecConfig) → Succeeds (read_int store o c)
  unfolding read_int
  read_int-Succeeds none h c = (c, refl)
  read_int-Succeeds (some k) h c = Succeeds-bind _ h (λ n. (_, refl))

module _ (store : ℕ → ℕ → ASecConfig → ASecConfig) where
  read_interval-IsInterval :
      (o : Option Key) (c : Option ASecConfig) {d : Option ASecConfig}
      → read_interval store o c ≡ ok d
      → IsInterval o
  unfolding read_interval
  read_interval-IsInterval none c e = tt
  read_interval-IsInterval (some k) c e =
      let (b, bounds, _) = bind-eq-ok (parse_magic_header_interval k.string) _ e in (b, bounds)

  read_interval-Succeeds :
      (o : Option Key) → IsInterval o → (c : Option ASecConfig) → Succeeds (read_interval store o c)
  unfolding read_interval
  read_interval-Succeeds none h c = (c, refl)
  read_interval-Succeeds (some k) h c = Succeeds-bind _ h (λ b. (_, refl))

pub read_sizes-Succeeds :
    (s : Section) → Readable s → (c : Option ASecConfig) → Succeeds (read_sizes s c)
unfolding read_sizes
read_sizes-Succeeds s r c0 = Succeeds-bind _ (read_int-Succeeds store_jc _ r.jc c0) λ c1.
    Succeeds-bind _ (read_int-Succeeds store_jmin _ r.jmin c1) λ c2.
      Succeeds-bind _ (read_int-Succeeds store_jmax _ r.jmax c2) λ c3.
        Succeeds-bind _ (read_int-Succeeds store_s1 _ r.s1 c3) λ c4.
          Succeeds-bind _ (read_int-Succeeds store_s2 _ r.s2 c4) λ c5.
            Succeeds-bind _ (read_int-Succeeds store_s3 _ r.s3 c5)
              λ c6. read_int-Succeeds store_s4 _ r.s4 c6

pub read_headers-Succeeds :
    (s : Section) → Readable s → (c : Option ASecConfig) → Succeeds (read_headers s c)
unfolding read_headers
read_headers-Succeeds s r c0 = Succeeds-bind _ (read_interval-Succeeds store_h1 _ r.h1 c0) λ c1.
    Succeeds-bind _ (read_interval-Succeeds store_h2 _ r.h2 c1) λ c2.
      Succeeds-bind _ (read_interval-Succeeds store_h3 _ r.h3 c2)
        λ c3. read_interval-Succeeds store_h4 _ r.h4 c3

pub read-Readable :
    (s : Section) (c0 : Option ASecConfig) {c d : Option ASecConfig}
    → read_sizes s c0 ≡ ok c
    → read_headers s c ≡ ok d
    → Readable s
unfolding read_sizes read_headers
read-Readable s c0 {c} e0 f0 =
    let (c1, r1, e1) = bind-eq-ok (read_int store_jc (s.get_key (codes "Jc")) c0) _ e0 in
    let (c2, r2, e2) = bind-eq-ok (read_int store_jmin (s.get_key (codes "Jmin")) c1) _ e1 in
    let (c3, r3, e3) = bind-eq-ok (read_int store_jmax (s.get_key (codes "Jmax")) c2) _ e2 in
    let (c4, r4, e4) = bind-eq-ok (read_int store_s1 (s.get_key (codes "S1")) c3) _ e3 in
    let (c5, r5, e5) = bind-eq-ok (read_int store_s2 (s.get_key (codes "S2")) c4) _ e4 in
    let (c6, r6, r7) = bind-eq-ok (read_int store_s3 (s.get_key (codes "S3")) c5) _ e5 in
    let (d1, t1, f1) = bind-eq-ok (read_interval store_h1 (s.get_key (codes "H1")) c) _ f0 in
    let (d2, t2, f2) = bind-eq-ok (read_interval store_h2 (s.get_key (codes "H2")) d1) _ f1 in
    let (d3, t3, t4) = bind-eq-ok (read_interval store_h3 (s.get_key (codes "H3")) d2) _ f2 in
    record {
      jc = read_int-IsNumber store_jc _ c0 r1;
      jmin = read_int-IsNumber store_jmin _ c1 r2;
      jmax = read_int-IsNumber store_jmax _ c2 r3;
      s1 = read_int-IsNumber store_s1 _ c3 r4;
      s2 = read_int-IsNumber store_s2 _ c4 r5;
      s3 = read_int-IsNumber store_s3 _ c5 r6;
      s4 = read_int-IsNumber store_s4 _ c6 r7;
      h1 = read_interval-IsInterval store_h1 _ c t1;
      h2 = read_interval-IsInterval store_h2 _ d1 t2;
      h3 = read_interval-IsInterval store_h3 _ d2 t3;
      h4 = read_interval-IsInterval store_h4 _ d3 t4;
    }

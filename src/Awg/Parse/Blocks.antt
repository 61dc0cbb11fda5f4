-- ===== src/Awg/Parse/Blocks.antt =====
-- What each block of `ParseASecConfig` does to the configuration.
use model_lib.Base.{ℕ, Option, none, some, is_some, ◌≡◌, refl, ap, arith, ok, bind-eq-ok}
use model_lib.Base.Int.{ℤ}
use model_lib.Ini.{Key}
use model_lib.Awg.Config.{ASecConfig}
use model_lib.Awg.Header.{parse_magic_header_interval}
use model_lib.Awg.Parse.{
  or_zero, read_int, read_interval, read_text, store_jc, store_jmin, store_jmax, store_s1, store_s2,
  store_s3, store_s4, store_h1, store_h2, store_h3, store_h4, store_i1, store_i2, store_i3,
  store_i4, store_i5,
}
use model_lib.Awg.Parse.Put.{
  bounds_ok, given_or, put_jc, put_jmin, put_jmax, put_s1, put_s2, put_s3, put_s4, put_h1, put_h2,
  put_h3, put_h4, put_i1, put_i2, put_i3, put_i4, put_i5,
}

-- One block took the pointer `c` to `d`: it put its option there, and the pointer is not nil if the
-- option was given.
abbrev pub Took :
    (Option Key → ASecConfig → ASecConfig)
    → Option Key
    → Option ASecConfig
    → Option ASecConfig
    → Type 0
Took put o c d = (or_zero d ≡ put o (or_zero c)) × (is_some d ≡ given_or o (is_some c))

read_int_lem :
    (store : ℤ → ASecConfig → ASecConfig) (put : Option Key → ASecConfig → ASecConfig)
    → ((c : ASecConfig) → put none c ≡ c)
    → ((k : Key) (v : ℤ) (c : ASecConfig) → k.int ≡ ok v → put (some k) c ≡ store v c)
    → (o : Option Key) (c : Option ASecConfig) {d : Option ASecConfig} → read_int store o c ≡ ok d
    → Took put o c d
unfolding read_int
read_int_lem store put absent present none c e = ground (arith, absent (or_zero c))
read_int_lem store put absent present (some k) c e =
    let (v, value, e') = bind-eq-ok k.int _ e in ground (arith, present k v (or_zero c) value)

read_interval_lem :
    (store : ℕ → ℕ → ASecConfig → ASecConfig) (put : Option Key → ASecConfig → ASecConfig)
    → ((c : ASecConfig) → put none c ≡ c)
    → ((k : Key) (b : ℕ × ℕ) (c : ASecConfig)
        → parse_magic_header_interval k.string ≡ ok b
        → put (some k) c ≡ store b.0 b.1 c)
    → (o : Option Key) (c : Option ASecConfig) {d : Option ASecConfig}
    → read_interval store o c ≡ ok d
    → Took put o c d
unfolding read_interval
read_interval_lem store put absent present none c e = ground (arith, absent (or_zero c))
read_interval_lem store put absent present (some k) c e =
    let (b, value, e') = bind-eq-ok (parse_magic_header_interval k.string) _ e in
    ground (arith, present k b (or_zero c) value)

pub jc-Took :
    (o : Option Key) (c : Option ASecConfig) {d : Option ASecConfig}
    → read_int store_jc o c ≡ ok d
    → Took put_jc o c d
jc-Took = read_int_lem store_jc put_jc (λ c. refl) (λ k v c e. rw e)

pub jmin-Took :
    (o : Option Key) (c : Option ASecConfig) {d : Option ASecConfig}
    → read_int store_jmin o c ≡ ok d
    → Took put_jmin o c d
jmin-Took = read_int_lem store_jmin put_jmin (λ c. refl) (λ k v c e. rw e)

pub jmax-Took :
    (o : Option Key) (c : Option ASecConfig) {d : Option ASecConfig}
    → read_int store_jmax o c ≡ ok d
    → Took put_jmax o c d
jmax-Took = read_int_lem store_jmax put_jmax (λ c. refl) (λ k v c e. rw e)

pub s1-Took :
    (o : Option Key) (c : Option ASecConfig) {d : Option ASecConfig}
    → read_int store_s1 o c ≡ ok d
    → Took put_s1 o c d
s1-Took = read_int_lem store_s1 put_s1 (λ c. refl) (λ k v c e. rw e)

pub s2-Took :
    (o : Option Key) (c : Option ASecConfig) {d : Option ASecConfig}
    → read_int store_s2 o c ≡ ok d
    → Took put_s2 o c d
s2-Took = read_int_lem store_s2 put_s2 (λ c. refl) (λ k v c e. rw e)

pub s3-Took :
    (o : Option Key) (c : Option ASecConfig) {d : Option ASecConfig}
    → read_int store_s3 o c ≡ ok d
    → Took put_s3 o c d
s3-Took = read_int_lem store_s3 put_s3 (λ c. refl) (λ k v c e. rw e)

pub s4-Took :
    (o : Option Key) (c : Option ASecConfig) {d : Option ASecConfig}
    → read_int store_s4 o c ≡ ok d
    → Took put_s4 o c d
s4-Took = read_int_lem store_s4 put_s4 (λ c. refl) (λ k v c e. rw e)

pub h1-Took :
    (o : Option Key) (c : Option ASecConfig) {d : Option ASecConfig}
    → read_interval store_h1 o c ≡ ok d
    → Took put_h1 o c d
h1-Took =
    read_interval_lem store_h1 put_h1 (λ c. refl)
      λ k b c e. ap (λ x. store_h1 x.0 x.1 c) (bounds_ok k b (0, 0) e)

pub h2-Took :
    (o : Option Key) (c : Option ASecConfig) {d : Option ASecConfig}
    → read_interval store_h2 o c ≡ ok d
    → Took put_h2 o c d
h2-Took =
    read_interval_lem store_h2 put_h2 (λ c. refl)
      λ k b c e. ap (λ x. store_h2 x.0 x.1 c) (bounds_ok k b (0, 0) e)

pub h3-Took :
    (o : Option Key) (c : Option ASecConfig) {d : Option ASecConfig}
    → read_interval store_h3 o c ≡ ok d
    → Took put_h3 o c d
h3-Took =
    read_interval_lem store_h3 put_h3 (λ c. refl)
      λ k b c e. ap (λ x. store_h3 x.0 x.1 c) (bounds_ok k b (0, 0) e)

pub h4-Took :
    (o : Option Key) (c : Option ASecConfig) {d : Option ASecConfig}
    → read_interval store_h4 o c ≡ ok d
    → Took put_h4 o c d
h4-Took =
    read_interval_lem store_h4 put_h4 (λ c. refl)
      λ k b c e. ap (λ x. store_h4 x.0 x.1 c) (bounds_ok k b (0, 0) e)

pub i1-Took : (o : Option Key) (c : Option ASecConfig) → Took put_i1 o c (read_text store_i1 o c)
unfolding read_text
i1-Took none c = (refl, refl)
i1-Took (some k) c = (refl, refl)

pub i2-Took : (o : Option Key) (c : Option ASecConfig) → Took put_i2 o c (read_text store_i2 o c)
unfolding read_text
i2-Took none c = (refl, refl)
i2-Took (some k) c = (refl, refl)

pub i3-Took : (o : Option Key) (c : Option ASecConfig) → Took put_i3 o c (read_text store_i3 o c)
unfolding read_text
i3-Took none c = (refl, refl)
i3-Took (some k) c = (refl, refl)

pub i4-Took : (o : Option Key) (c : Option ASecConfig) → Took put_i4 o c (read_text store_i4 o c)
unfolding read_text
i4-Took none c = (refl, refl)
i4-Took (some k) c = (refl, refl)

pub i5-Took : (o : Option Key) (c : Option ASecConfig) → Took put_i5 o c (read_text store_i5 o c)
unfolding read_text
i5-Took none c = (refl, refl)
i5-Took (some k) c = (refl, refl)

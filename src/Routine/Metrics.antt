-- ===== src/Routine/Metrics.antt =====
-- The redaction of the settings of the device.
use model_lib.Base.{
  Bool-cases, List, [], ◌∷◌, ◌++◌, if◌then◌else◌, ◌≡◌, refl, ap, ◌∙◌, arith, inl, inr, All, map,
  codes, Bytes, ◌⊎◌, Each, nil, cons, subst, sym, equal_iff,
}
use model_lib.Strings.{split, split_once}
use model_lib.Strings.Split.{split_once-append}
use model_lib.Ipc.{line}
use model_lib.Ipc.Settings.{Setting}
use model_lib.Ipc.RoundTrip.{IsClean, read_request, text_of, split-line, read-text_of}
use model_lib.Routine.{redacted, is_secret, redact_line, redact_lines, redact}

-- What a setting is shown as.
abbrev shown : Setting → Setting
shown (key, value) = (key, if is_secret key then redacted else value)

shown-IsClean : (setting : Setting) → IsClean setting → IsClean (shown setting)
shown-IsClean (key, value) c = record {
  key_some = c.key_some;
  key_plain = c.key_plain;
  key_line = c.key_line;
  value_line = elim (Bool-cases (is_secret key)) [
    | inl secret ↦ rw secret (omega arith)
    | inr public ↦ rw public c.value_line
  ];
}

All-shown : (settings : List Setting) → All IsClean settings → All IsClean (map shown settings)
All-shown [] h = tt
All-shown (s ∷ settings) h = (shown-IsClean s h.0, All-shown settings h.1)

redact-text_of :
    (settings : List Setting)
    → All IsClean settings
    → redact (text_of settings) ≡ text_of (map shown settings)
unfolding redact redact_lines redact_line
redact-text_of [] h = unfold split in unfold split_once in refl
redact-text_of ((key, value) ∷ settings) (c, clean) =
    ap redact_lines (split-line key value (text_of settings) c.key_line c.value_line)
    ∙ ap (λ p. redact_line p ++ redact_lines (split (text_of settings) b'\n'))
        (split_once-append key value b'=' c.key_plain)
    ∙ ap (λ s. line key (shown (key, value)).1 ++ s) (redact-text_of settings clean)

-- The values that are secret are those of these two keys.
abbrev pub HoldsSecret : Bytes → Type 0
HoldsSecret key = (key ≡ codes "private_key") ⊎ (key ≡ codes "preshared_key")

-- The second setting is what is shown of the first.
abbrev pub ShownAs : Setting → Setting → Type 0
ShownAs (key, value) (key', value') =
    (key' ≡ key)
    × ((HoldsSecret key × (value' ≡ codes "REDACTED")) ⊎ (¬ (HoldsSecret key) × (value' ≡ value)))

shown-ShownAs : (setting : Setting) → ShownAs setting (shown setting)
shown-ShownAs (key, value) =
    ground (arith, equal_iff key (codes "private_key"), equal_iff key (codes "preshared_key"))

Each-shown : (settings : List Setting) → Each ShownAs settings (map shown settings)
Each-shown [] = nil
Each-shown (s ∷ settings) = cons (shown-ShownAs s) (Each-shown settings)

-- The body of /metrics reads as the settings of the device, one by one, where the values of private_key
-- and of preshared_key are REDACTED, and all else is as it was; for settings that are lines of a key and
-- a value.
pub read_request-redact :
    (settings : List Setting)
    → All IsClean settings
    → Each ShownAs settings (read_request (redact (text_of settings)))
read_request-redact settings clean =
    subst (Each ShownAs settings)
      (sym (
        ap read_request (redact-text_of settings clean)
        ∙ read-text_of (map shown settings) (All-shown settings clean)))
      (Each-shown settings)

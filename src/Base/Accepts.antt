-- ===== src/Base/Accepts.antt =====
-- Loops over Accept: what each accepted connection becomes, up to the first error.
use mathlib.Core.Option.{Option, none, some}
use mathlib.Core.List.{List, [], ◌∷◌}
use model_lib.Base.Errors.{Error, Result, ok, err}

-- The goroutines belong to the connections that are accepted before the first error, one for each and in
-- their order, and `R` says what each does; the first error ends the loop with `fail` of it.
pub data AcceptedAll {A B : Type 0} (R : A → B → Type 0) (fail : Error → Error)
    : List (Result A) → List B → Option Error → Type 0 where
  waiting : AcceptedAll R fail [] [] none
  stopped :
      (e : Error) (accepts : List (Result A))
      → AcceptedAll R fail (err e ∷ accepts) [] (some (fail e))
  served :
      {a : A} {b : B} {accepts : List (Result A)} {rest : List B} {last : Option Error}
      → R a b
      → AcceptedAll R fail accepts rest last
      → AcceptedAll R fail (ok a ∷ accepts) (b ∷ rest) last

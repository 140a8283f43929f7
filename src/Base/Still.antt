-- ===== src/Base/Still.antt =====
-- Contracts of calls that leave the state as it was, with the facts gathered on the way.
use mathlib.Core.Path.{◌≡◌, refl}
use mathlib.Core.Bool.{Bool, true, false}
use mathlib.Core.Option.{Option, none, some}
use api_free_demo.Base.Outcome.{Error, check, fail_if, pure}
use api_free_demo.Base.Triple.{Triple}

module _ {S : Type 0} (start : S) where
  abbrev pub Known : Type 0 → S → Type 0
  Known F s = F × (s ≡ start)

  abbrev pub Untouched : Error → S → Type 0
  Untouched e s = s ≡ start

  module _ {F : Type 0} where
    pub check-Known :
        (o : Option Error) → Triple (Known F) (check o) (λ _. Known ((o ≡ none) × F)) Untouched
    check-Known none = record { ends = λ s r. ((refl, r.0), r.1) }
    check-Known (some e) = record { ends = λ s r. r.1 }

    pub fail_if-Known :
        (b : Bool) (e : Error)
        → Triple (Known F) (fail_if b e) (λ _. Known ((b ≡ false) × F)) Untouched
    fail_if-Known true e = record { ends = λ s r. r.1 }
    fail_if-Known false e = record { ends = λ s r. ((refl, r.0), r.1) }

    pub pure-Known :
        {A : Type 0} (a : A) → Triple (Known F) (pure a) (λ b. Known ((b ≡ a) × F)) Untouched
    pure-Known a = record { ends = λ s r. ((refl, r.0), r.1) }

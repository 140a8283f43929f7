-- ===== src/Base/Outcome.antt =====
-- A Go call that returns `(value, error)` and may change shared state: state and errors. The
-- state comes back after an error too, since what was written stays written.
use mathlib.Core.Bool.{Bool, true, false}
use mathlib.Core.Option.{Option, none, some}
use mathlib.Core.List.{List}
use api_free_demo.Base.Chars.{Text}

-- The errors of the program: the sentinels of the two domain packages, what the validator
-- reports (a field and the rule that it breaks), and any other error by its message.
pub data Error : Type 0 where
  duplicate_email invalid_creds forbidden user_not_found invalid_token : Error
  registration_disabled : Error
  profile_not_found profile_forbidden version_conflict : Error
  validation : List (Text × Text) → Error
  message : Text → Error

pub data Outcome (S A : Type 0) : Type 0 where
  ok : A → S → Outcome S A
  err : Error → S → Outcome S A

abbrev pub M : Type 0 → Type 0 → Type 0
M S A = S → Outcome S A

abbrev pub state_of : {S A : Type 0} → Outcome S A → S
state_of (ok a s) = s
state_of (err e s) = s

abbrev pub pure : {S A : Type 0} → A → M S A
pure a s = ok a s

abbrev pub fail : {S A : Type 0} → Error → M S A
fail e s = err e s

-- What follows a call runs unless the call has failed.
abbrev pub resume : {S A B : Type 0} → (A → M S B) → Outcome S A → Outcome S B
resume f (ok a s) = f a s
resume f (err e s) = err e s

infixl 5 ◌>>=◌ ◌>>◌
abbrev pub ◌>>=◌ : {S A B : Type 0} → M S A → (A → M S B) → M S B
◌>>=◌ m f s = resume f (m s)

abbrev pub ◌>>◌ : {S B : Type 0} → M S (Unit {0}) → M S B → M S B
m >> k = m >>= λ _. k

-- `if err := f(); err != nil { return err }` for a check that changes nothing.
abbrev pub check : {S : Type 0} → Option Error → M S (Unit {0})
check none s = ok tt s
check (some e) s = err e s

-- `if test { return e }`
abbrev pub fail_if : {S : Type 0} → Bool → Error → M S (Unit {0})
fail_if true e s = err e s
fail_if false e s = ok tt s

-- `if err := f(); err != nil { return e }`: any error becomes the given one.
abbrev pub or_else : {S A : Type 0} → M S A → Error → M S A
or_else m e s = elim (m s) [ ok a s' ↦ ok a s' | err _ s' ↦ err e s' ]

-- What a call returns, if it returns a value, satisfies the predicate.
abbrev pub Returns {ℓ} : {S A : Type 0} → (A → Type ℓ) → Outcome S A → Type ℓ
Returns P (ok a s) = P a
Returns P (err e s) = Unit

pub resume-Returns {ℓ κ} :
    {S A B : Type 0} (P : A → Type ℓ) (Q : B → Type κ) (f : A → M S B) (o : Outcome S A)
    → Returns P o
    → ((a : A) (s : S) → P a → Returns Q (f a s))
    → Returns Q (resume f o)
resume-Returns P Q f (ok a s) h k = k a s h
resume-Returns P Q f (err e s) h k = tt

-- ===== src/Base/Triple.antt =====
-- Contracts of calls: from a state that satisfies `R` a call ends with a value and a state that
-- satisfy `P`, or with an error and a state that satisfy `Q`.
use mathlib.Core.Path.{◌≡◌, refl, subst}
use api_free_demo.Base.Outcome.{Error, Outcome, ok, err, M, resume}

abbrev pub Ends : {S A : Type 0} → (A → S → Type 0) → (Error → S → Type 0) → Outcome S A → Type 0
Ends P Q (ok a s) = P a s
Ends P Q (err e s) = Q e s

pub record Triple {S A : Type 0} (R : S → Type 0) (m : M S A) (P : A → S → Type 0)
    (Q : Error → S → Type 0) : Type 0 where
  pub ends : (s : S) → R s → Ends P Q (m s)

resume-Ends :
    {S A B : Type 0} (P : A → S → Type 0) (P' : B → S → Type 0) (Q : Error → S → Type 0)
    (f : A → M S B) (o : Outcome S A)
    → Ends P Q o
    → ((a : A) (s : S) → P a s → Ends P' Q (f a s))
    → Ends P' Q (resume f o)
resume-Ends P P' Q f (ok a s) h k = k a s h
resume-Ends P P' Q f (err e s) h k = h

Ends-weaken :
    {S A : Type 0} (P P' : A → S → Type 0) (Q Q' : Error → S → Type 0) (o : Outcome S A)
    → ((a : A) (s : S) → P a s → P' a s)
    → ((e : Error) (s : S) → Q e s → Q' e s)
    → Ends P Q o
    → Ends P' Q' o
Ends-weaken P P' Q Q' (ok a s) h k e = h a s e
Ends-weaken P P' Q Q' (err x s) h k e = k x s e

module _ {S : Type 0} where
  pub then_call :
      {A B : Type 0} {R : S → Type 0} {m : M S A} {P : A → S → Type 0} {P' : B → S → Type 0}
      {Q : Error → S → Type 0} {f : A → M S B}
      → Triple R m P Q
      → ((a : A) → Triple (P a) (f a) P' Q)
      → Triple R (λ s. resume f (m s)) P' Q
  then_call {m} {P} {P'} {Q} {f} t k = record {
    ends = λ s r. resume-Ends P P' Q f (m s) (t.ends s r) λ a s' p. (k a).ends s' p;
  }

  pub weaken :
      {A : Type 0} {R R' : S → Type 0} {m : M S A} {P P' : A → S → Type 0}
      {Q Q' : Error → S → Type 0}
      → ((s : S) → R' s → R s)
      → ((a : A) (s : S) → P a s → P' a s)
      → ((e : Error) (s : S) → Q e s → Q' e s)
      → Triple R m P Q
      → Triple R' m P' Q'
  weaken {m} {P} {P'} {Q} {Q'} g h k t = record {
    ends = λ s r. Ends-weaken P P' Q Q' (m s) h k (t.ends s (g s r));
  }

-- What a contract says of a call that is known to have succeeded, or to have failed
pub ends_ok :
    {S A : Type 0} (P : A → S → Type 0) (Q : Error → S → Type 0) {o : Outcome S A} {a : A} {s : S}
    → o ≡ ok a s
    → Ends P Q o
    → P a s
ends_ok P Q e h = subst (Ends P Q) e h

pub ends_err :
    {S A : Type 0} (P : A → S → Type 0) (Q : Error → S → Type 0) {o : Outcome S A} {x : Error}
    {s : S}
    → o ≡ err x s
    → Ends P Q o
    → Q x s
ends_err P Q e h = subst (Ends P Q) e h

abbrev pub Succeeds : {S A : Type 0} → Outcome S A → Type 0
Succeeds (ok a s) = Unit
Succeeds (err e s) = ⊥

pub Succeeds-then :
    {S A B : Type 0} (f : A → M S B) {o : Outcome S A} {a : A} {s : S}
    → o ≡ ok a s
    → Succeeds (f a s)
    → Succeeds (resume f o)
Succeeds-then f e h = rw e h

pub succeeded : {S A : Type 0} (o : Outcome S A) → Succeeds o → (a : A) × (s : S) × (o ≡ ok a s)
succeeded (ok a s) h = (a, s, refl)
succeeded (err e s) h = absurd h

-- ===== src/Db/Columns.antt =====
-- The columns that a patch may name: none of them changes what identifies a row.
use mathlib.Core.Path.{subst}
use api_free_demo.Base.{
  ◌≡◌, refl, true, Option, none, some, List, [], ◌∷◌, ◌++◌, Text, arith, text_eq, any, All,
  Bool-cases, Option-cases, inl, inr,
}
use api_free_demo.Base.Outcome.{Returns, resume-Returns}
use api_free_demo.Time.{Time}
use api_free_demo.Profile.{Uuid, Profile, Value, Fields, allowed, is_allowed}
use api_free_demo.Db.Tables.{Db, Driver}
use api_free_demo.Db.Assignments.{
  Assignment, assign_required, assign_nullable, column, describing, identifying, assignments, bound,
  bind, apply, touch, patch_row, mark_deleted,
}
use api_free_demo.Db.RowRules.{RevisesIf}

-- What every change of a row keeps
pub record SameIdentity (row row' : Profile) : Type 0 where
  pub same_id : row'.id ≡ row.id
  pub same_owner : row'.user_id ≡ row.user_id
  pub same_creation : row'.created_at ≡ row.created_at

abbrev pub KeepsIdentity : Assignment → Type 0
KeepsIdentity a = (row row' : Profile) → a row ≡ some row' → SameIdentity row row'

pub KeepsIdentity-RevisesIf : (u : Uuid) (a : Assignment) → KeepsIdentity a → RevisesIf u a
KeepsIdentity-RevisesIf u a h row row' own e =
    let s = h row row' e in
    record {
      owner = own;
      same_id = s.same_id;
      same_owner = s.same_owner;
      same_creation = s.same_creation;
    }

abbrev IfAssigned : Option Assignment → Type 0
IfAssigned none = Unit
IfAssigned (some a) = KeepsIdentity a

unwrap : (row row' : Profile) → some row ≡ some row' → row ≡ row'
unwrap row row' e = cc

module _ {A : Type 0} where
  assign_required-IfAssigned :
      (o : Option (Option A)) (set : A → Profile → Profile)
      → ((a : A) (row : Profile) → SameIdentity row (set a row))
      → IfAssigned (assign_required o set)
  assign_required-IfAssigned none set h = tt
  assign_required-IfAssigned (some none) set h = λ row row' e. cc
  assign_required-IfAssigned (some (some a)) set h =
      λ row row' e. subst (SameIdentity row) (unwrap (set a row) row' e) (h a row)

  assign_nullable-IfAssigned :
      (o : Option (Option A)) (set : Option A → Profile → Profile)
      → ((a : Option A) (row : Profile) → SameIdentity row (set a row))
      → IfAssigned (assign_nullable o set)
  assign_nullable-IfAssigned none set h = tt
  assign_nullable-IfAssigned (some a) set h =
      λ row row' e. subst (SameIdentity row) (unwrap (set a row) row' e) (h a row)

describing-IfAssigned :
    (d : Driver) (v : Value)
    → All (λ (c : Text × Option Assignment). IfAssigned c.1) (describing d v)
unfolding describing
describing-IfAssigned d v = (
  assign_required-IfAssigned (d.text_of v) _ (λ a row. omega arith),
  (
    assign_required-IfAssigned (d.text_of v) _ (λ a row. omega arith),
    (
      assign_nullable-IfAssigned (d.text_of v) _ (λ a row. omega arith),
      (
        assign_nullable-IfAssigned (d.text_of v) _ (λ a row. omega arith),
        (
          assign_nullable-IfAssigned (d.text_of v) _ (λ a row. omega arith),
          (
            assign_nullable-IfAssigned (d.time_of v) _ (λ a row. omega arith),
            (
              assign_nullable-IfAssigned (d.text_of v) _ (λ a row. omega arith),
              (
                assign_nullable-IfAssigned (d.text_of v) _ (λ a row. omega arith),
                (assign_nullable-IfAssigned (d.text_of v) _ (λ a row. omega arith), tt),
              ),
            ),
          ),
        ),
      ),
    ),
  ),
)

abbrev keys {ℓ} : {A : Type ℓ} → List (Text × A) → List Text
keys [] = []
keys ((k, a) ∷ rest) = k ∷ keys rest

describing-keys : (d : Driver) (v : Value) → keys (describing d v) ≡ allowed
unfolding describing
describing-keys d v = refl

-- A key found in the first part of a list of columns is read from that part.
column-found :
    (k : Text) (xs ys : List (Text × Option Assignment)) (a : Assignment)
    → All (λ (c : Text × Option Assignment). IfAssigned c.1) xs
    → any (text_eq k) (keys xs) ≡ true
    → column k (xs ++ ys) ≡ some (some a)
    → KeepsIdentity a
column-found k [] ys a h f e = cc
column-found k ((j, o) ∷ xs) ys a h f e = elim (Bool-cases (text_eq k j)) [
  | inl same ↦ let found : o ≡ some a = ground arith in rw found at h.0
  | inr other ↦ column-found k xs ys a h.1 (ground arith) (ground arith)
]

column-KeepsIdentity :
    (d : Driver) (k : Text) (v : Value) (a : Assignment)
    → is_allowed k ≡ true
    → column k (assignments d v) ≡ some (some a)
    → KeepsIdentity a
unfolding is_allowed
column-KeepsIdentity d k v a h e =
    column-found k (describing d v) (identifying d v) a (describing-IfAssigned d v)
      (rw (describing-keys d v) h) e

bound-Returns :
    (d : Driver) (k : Text) (v : Value) (db : Db)
    → is_allowed k ≡ true
    → Returns KeepsIdentity (bound d (column k (assignments d v)) db)
bound-Returns d k v db h = go (column k (assignments d v)) refl
  where
    go :
        (o : Option (Option Assignment))
        → column k (assignments d v) ≡ o
        → Returns KeepsIdentity (bound d o db)
    go none e = tt
    go (some none) e = tt
    go (some (some a)) e = column-KeepsIdentity d k v a h e

abbrev pub AllAllowed : Fields → Type 0
AllAllowed fields = All (λ (f : Text × Value). is_allowed f.0 ≡ true) fields

pub bind-Returns :
    (d : Driver) (fields : Fields) (db : Db)
    → AllAllowed fields
    → Returns (All KeepsIdentity) (bind d fields db)
unfolding bind
bind-Returns d [] db h = tt
bind-Returns d ((k, v) ∷ fields) db h =
    resume-Returns KeepsIdentity (All KeepsIdentity) _ (bound d (column k (assignments d v)) db)
      (bound-Returns d k v db h.0)
      (λ a s p.
        resume-Returns (All KeepsIdentity) (All KeepsIdentity) _ (bind d fields s)
          (bind-Returns d fields s h.1) (λ sets s' q. (p, q)))

apply-KeepsIdentity : (sets : List Assignment) → All KeepsIdentity sets → KeepsIdentity (apply sets)
unfolding apply
apply-KeepsIdentity [] h row row' e = subst (SameIdentity row) (unwrap row row' e) (omega arith)
apply-KeepsIdentity (a ∷ sets) h row row' e = elim (Option-cases (a row)) [
  | inl refused ↦ ground arith
  | inr (mid, changed) ↦
      let first' = h.0 row mid changed in
      let second = apply-KeepsIdentity sets h.1 mid row' (ground arith) in omega arith
]

touch-KeepsIdentity : (now : Time) → KeepsIdentity (touch now)
unfolding touch
touch-KeepsIdentity now row row' e = ground arith

pub mark_deleted-KeepsIdentity : (now : Time) → KeepsIdentity (mark_deleted now)
unfolding mark_deleted
mark_deleted-KeepsIdentity now row row' e = ground arith

pub patch_row-KeepsIdentity :
    (now : Time) (sets : List Assignment)
    → All KeepsIdentity sets
    → KeepsIdentity (patch_row now sets)
unfolding patch_row
patch_row-KeepsIdentity now sets h row row' e = elim (Option-cases (apply sets row)) [
  | inl refused ↦ ground arith
  | inr (mid, changed) ↦
      let first' = apply-KeepsIdentity sets h row mid changed in
      let second = touch-KeepsIdentity now mid row' (ground arith) in omega arith
]

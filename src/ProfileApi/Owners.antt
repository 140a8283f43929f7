-- ===== src/ProfileApi/Owners.antt =====
-- The profiles that a method of the service reads or makes, and their owner.
use api_free_demo.Base.{
  ℕ, ◌≡◌, refl, ◌∙◌, ◌⊎◌, inl, inr, Option, none, some, List, [], ◌∷◌, arith, All, Text, Bool-cases,
  suc,
}
use api_free_demo.Base.Outcome.{Error, M, Returns}
use api_free_demo.Time.{Time}
use api_free_demo.Validation.{Validator}
use api_free_demo.Profile.{
  Uuid, Profile, CreateRequest, UpdateRequest, Fields, Policy, assign_optional_fields, new_profile,
  or_bad_date, found, updated, renewed, item_of, add_item, patch_update, is_allowed, bulk_items,
  bulk_item, validate_create,
}
use api_free_demo.Db.{Db, Driver, profile_repository, first, live, statement, meet}
use api_free_demo.Db
use api_free_demo.Db.Columns.{AllAllowed}
use api_free_demo.Db.Rules.{Always, query-Always}
use api_free_demo.Db.Actions.{IsOwn}

assign_optional_fields-owner :
    (policy : Policy) (p : Profile) (req : CreateRequest) (q : Profile)
    → assign_optional_fields policy p req ≡ some q
    → (q.user_id ≡ p.user_id) × (q.id ≡ p.id)
unfolding assign_optional_fields
assign_optional_fields-owner policy p req q e = ground arith

pub patch_update-AllAllowed :
    (policy : Policy) (fields : Fields) → AllAllowed (patch_update policy fields)
unfolding patch_update
patch_update-AllAllowed policy [] = tt
patch_update-AllAllowed policy ((k, v) ∷ fields) = elim (Bool-cases (is_allowed k)) [
  | inl kept ↦ rw kept (kept, patch_update-AllAllowed policy fields)
  | inr dropped ↦ rw dropped (patch_update-AllAllowed policy fields)
]

-- A profile read for a user is the user's own.
abbrev pub IfOwn : Uuid → Option Profile → Type 0
IfOwn u none = Unit
IfOwn u (some p) = IsOwn u p

first-live : (id u : Uuid) (rows : List Profile) → IfOwn u (first (live id u) rows)
first-live id u [] = tt
first-live id u (row ∷ rows) = elim (Bool-cases (live id u row)) [
  | inl picked ↦ rw picked (ground arith)
  | inr left ↦ rw left (first-live id u rows)
]

meet-Returns {ℓ} :
    {A : Type 0} (P : A → Type ℓ) (faults : List (Option Text)) (m : M Db A) (db : Db)
    → ((s : Db) → Returns P (m s))
    → Returns P (meet faults m db)
meet-Returns P [] m db h = h db
meet-Returns P (none ∷ rest) m db h = h (record db { faults = rest })
meet-Returns P (some e ∷ rest) m db h = tt

or_not_found-Returns :
    (u : Uuid) (o : Option Profile) (s : Db) → IfOwn u o → Returns (IfOwn u) (Db.or_not_found o s)
or_not_found-Returns u none s h = tt
or_not_found-Returns u (some p) s h = h

pub get_by_id-Returns : (id u : Uuid) (db : Db) → Returns (IfOwn u) (Db.get_by_id id u db)
unfolding Db.get_by_id statement
get_by_id-Returns id u db =
    meet-Returns (IfOwn u) db.faults _ db
      λ s. or_not_found-Returns u (first (live id u) s.profiles) s (first-live id u s.profiles)

abbrev pub IfMade : Uuid → Profile ⊎ Error → Type 0
IfMade u (inl p) = IsOwn u p
IfMade u (inr e) = Unit

module _ (u : Uuid) where
  pub or_bad_date-Always : (o : Option Profile) → Always u (or_bad_date o)
  or_bad_date-Always none = query-Always u _ (λ db. refl)
  or_bad_date-Always (some p) = query-Always u _ (λ db. refl)

  pub or_bad_date-Returns :
      (o : Option Profile) (db : Db) → IfOwn u o → Returns (IsOwn u) (or_bad_date o db)
  or_bad_date-Returns none db h = tt
  or_bad_date-Returns (some p) db h = h

  pub found-Always : (o : Option Profile) → Always u (found o)
  found-Always none = query-Always u _ (λ db. refl)
  found-Always (some p) = query-Always u _ (λ db. refl)

  pub found-Returns : (o : Option Profile) (db : Db) → IfOwn u o → Returns (IsOwn u) (found o db)
  found-Returns none db h = tt
  found-Returns (some p) db h = h

  pub assigned-IfOwn :
      (policy : Policy) (p : Profile) (req : CreateRequest)
      → IsOwn u p
      → IfOwn u (assign_optional_fields policy p req)
  assigned-IfOwn policy p req own = go (assign_optional_fields policy p req) refl
    where
      go : (o : Option Profile) → assign_optional_fields policy p req ≡ o → IfOwn u o
      go none e = tt
      go (some q) e = (assign_optional_fields-owner policy p req q e).0 ∙ own

  pub updated-IfOwn :
      (policy : Policy) (now : Time) (req : UpdateRequest) (p : Profile)
      → IsOwn u p
      → IfOwn u (updated policy now req p)
  unfolding updated
  updated-IfOwn policy now req p own =
      go (assign_optional_fields policy _ req.create) (assigned-IfOwn policy _ req.create own)
    where
      go :
          (o : Option Profile)
          → IfOwn u o
          → IfOwn u (elim o [ none ↦ none | some q ↦ some (renewed now q) ])
      go none h = tt
      go (some q) h = h

  pub new_profile-IsOwn :
      (policy : Policy) (now : Time) (id : Uuid) (req : CreateRequest)
      → IsOwn u (new_profile policy now id u req)
  unfolding new_profile
  new_profile-IsOwn policy now id req = refl

  pub bulk_item-IfMade :
      (v : Validator) (policy : Policy) (now : Time) (id : Uuid) (req : CreateRequest)
      → IfMade u (bulk_item v policy now id u req)
  unfolding bulk_item
  bulk_item-IfMade v policy now id req =
      go (validate_create v req)
        (assign_optional_fields policy (new_profile policy now id u req) req)
        (assigned-IfOwn policy _ req (new_profile-IsOwn policy now id req))
    where
      go : (e : Option Error) (o : Option Profile) → IfOwn u o → IfMade u (item_of e o)
      go (some e) o h = tt
      go none none h = tt
      go none (some p) h = h

  pub bulk_items-IsOwn :
      (v : Validator) (policy : Policy) (now : ℕ → Time) (id : ℕ → Uuid) (i : ℕ)
      (reqs : List CreateRequest)
      → All (IsOwn u) (bulk_items v policy now id u i reqs).0
  unfolding bulk_items
  bulk_items-IsOwn v policy now id i [] = tt
  bulk_items-IsOwn v policy now id i (req ∷ reqs) =
      go (bulk_item v policy (now i) (id i) u req) (bulk_item-IfMade v policy (now i) (id i) req)
        (bulk_items-IsOwn v policy now id (suc i) reqs)
    where
      go :
          (o : Profile ⊎ Error)
          → IfMade u o
          → All (IsOwn u) (bulk_items v policy now id u (suc i) reqs).0
          → All (IsOwn u) (add_item o (bulk_items v policy now id u (suc i) reqs)).0
      go (inl p) h k = (h, k)
      go (inr e) h k = k

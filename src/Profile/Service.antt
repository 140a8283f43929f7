-- ===== src/Profile/Service.antt =====
-- internal/domain/profile/service.go, over any repository. A call takes the times and the fresh
-- identifiers that it reads, in order.
use api_free_demo.Base.{ℕ, Bool, not, Option, none, some, List, [], ◌∷◌, codes, ℤ, eq_ℤ}
use api_free_demo.Base.Outcome.{Error, M, state_of, pure, fail, ◌>>=◌, ◌>>◌, check, fail_if}
use api_free_demo.Time.{Time}
use api_free_demo.Validation.{Validator, non_empty}
use api_free_demo.Profile.Interface.{Repository}
use api_free_demo.Profile.Model.{
  Uuid, Profile, CreateRequest, UpdateRequest, PatchRequest, Filter, BulkCreateRequest,
  BulkDeleteRequest, validate_create, validate_update, validate_patch,
}
use api_free_demo.Profile.Payloads.{
  Policy, assign_optional_fields, new_profile, or_bad_date, patch_update, fields_of, bulk_items,
  updated,
}

-- `if profile == nil { return ErrNotFound }`
abbrev pub found : {S : Type 0} → Option Profile → M S Profile
found none = fail Error.profile_not_found
found (some p) = pure p

-- `if len(profiles) > 0 { _ = s.repo.BulkCreate(…) }`: the error of the insertion is dropped.
abbrev pub store_items :
    {S : Type 0}
    → Repository S
    → List Profile × List (Option Error)
    → S
    → (List Profile × List (Option Error)) × S
store_items repo ([], errs) s = (([], errs), s)
store_items repo (p ∷ ps, errs) s = ((p ∷ ps, errs), state_of (repo.bulk_create (p ∷ ps) s))

abbrev pub no_fields : Error
no_fields = Error.message (codes "no valid fields to update")

module _ {S : Type 0} (repo : Repository S) (v : Validator) (policy : Policy) where
  -- `Service.Create`
  unfoldable pub create : Time → Uuid → Uuid → CreateRequest → M S Profile
  create now id user_id req = do
    check (validate_create v req)
    profile ←
        or_bad_date (assign_optional_fields policy (new_profile policy now id user_id req) req)
    repo.create profile
    pure profile

  -- `Service.BulkCreate`
  unfoldable pub bulk_create :
      (ℕ → Time)
      → (ℕ → Uuid)
      → Uuid
      → BulkCreateRequest
      → S
      → (List Profile × List (Option Error)) × S
  bulk_create now id user_id req s =
      store_items repo (bulk_items v policy now id user_id 0 req.profiles) s

  -- `Service.Get`
  unfoldable pub get : Uuid → Uuid → M S Profile
  get id user_id = do p ← repo.get_by_id id user_id; found p

  -- `Service.List`
  unfoldable pub list : Filter → M S (List Profile × ℕ)
  list filter = repo.list filter

  -- `Service.Update`
  unfoldable pub update : Time → Uuid → Uuid → UpdateRequest → M S Profile
  update now id user_id req = do
    check (validate_update v req)
    read ← repo.get_by_id id user_id
    profile ← found read
    fail_if (not (eq_ℤ profile.version req.version)) Error.version_conflict
    profile ← or_bad_date (updated policy now req profile)
    repo.update profile
    pure profile

  -- `Service.Patch`
  unfoldable pub patch : Time → Uuid → Uuid → PatchRequest → M S Profile
  patch now id user_id req = do
    check (validate_patch req)
    let update = patch_update policy (fields_of req.fields)
    fail_if (not (non_empty update)) no_fields
    repo.patch now id user_id update req.version

  -- `Service.Delete`
  unfoldable pub delete : Time → Uuid → Uuid → Bool → ℤ → M S (Unit {0})
  delete now id user_id hard version = do
    read ← repo.get_by_id id user_id
    profile ← found read
    fail_if (not (eq_ℤ profile.version version)) Error.version_conflict
    repo.delete now id user_id hard version

  -- `Service.BulkDelete`
  unfoldable pub bulk_delete : Time → Uuid → BulkDeleteRequest → M S ℕ
  bulk_delete now user_id req = do
    fail_if (not (non_empty req.ids)) (Error.message (codes "ids required"))
    repo.bulk_delete now user_id req.ids req.hard

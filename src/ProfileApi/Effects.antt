-- ===== src/ProfileApi/Effects.antt =====
-- Each method of the profile service acts as steps of its user.
use api_free_demo.Base.{ℕ, Bool, Option, List, [], ◌∷◌, All, ℤ, not}
use api_free_demo.Base.Outcome.{Error}
use api_free_demo.Time.{Time}
use api_free_demo.Validation.{Validator, non_empty}
use api_free_demo.Profile
use api_free_demo.Profile.{
  Uuid, Profile, CreateRequest, UpdateRequest, PatchRequest, Filter, BulkCreateRequest, Fields,
  BulkDeleteRequest, Policy, Value, assign_optional_fields, new_profile, or_bad_date, found,
  updated, renewed, item_of, add_item, no_fields, validate_update, validate_patch, patch_update,
  is_allowed, bulk_items, bulk_item, fields_of, validate_create,
}
use api_free_demo.Db.{Db, Driver, profile_repository}
use api_free_demo.Db.Rules.{
  Acts, Always, Acts-refl, pure-Always, fail_if-Always, check-Always, >>=-Always, >>=-Always_of,
}
use api_free_demo.Db.Actions.{
  IsOwn, create-Always, bulk_create-Always, get_by_id-Always, list_profiles-Always, update-Always,
  patch-Always, delete-Always, bulk_delete-Always,
}
use api_free_demo.ProfileApi.{Call, Readings, perform}
use api_free_demo.ProfileApi.Owners.{
  patch_update-AllAllowed, get_by_id-Returns, or_bad_date-Always, or_bad_date-Returns, found-Always,
  found-Returns, assigned-IfOwn, updated-IfOwn, new_profile-IsOwn, bulk_items-IsOwn, IfOwn,
}

module _ (u : Uuid) (d : Driver) (v : Validator) (policy : Policy) where
  create-effect :
      (now : Time) (id : Uuid) (req : CreateRequest)
      → Always u (Profile.create (profile_repository d) v policy now id u req)
  unfolding Profile.create
  create-effect now id req =
      let p₀ = new_profile policy now id u req in
      >>=-Always u _ _ (check-Always u (validate_create v req)) λ _.
        >>=-Always_of u (IsOwn u) _ _ (or_bad_date-Always u (assign_optional_fields policy p₀ req))
          (λ db.
            or_bad_date-Returns u _ db
              (assigned-IfOwn u policy p₀ req (new_profile-IsOwn u policy now id req)))
          λ p own. >>=-Always u _ _ (create-Always u d p own) λ _. pure-Always u p

  get-effect : (id : Uuid) → Always u (Profile.get (profile_repository d) v policy id u)
  unfolding Profile.get
  get-effect id = >>=-Always u _ _ (get_by_id-Always u id u) λ p. found-Always u p

  list-effect : (f : Filter) → Always u (Profile.list (profile_repository d) v policy f)
  unfolding Profile.list
  list-effect f = list_profiles-Always u f

  update-effect :
      (now : Time) (id : Uuid) (req : UpdateRequest)
      → Always u (Profile.update (profile_repository d) v policy now id u req)
  unfolding Profile.update
  update-effect now id req = >>=-Always u _ _ (check-Always u (validate_update v req)) λ _.
      >>=-Always_of u (IfOwn u) _ _ (get_by_id-Always u id u) (get_by_id-Returns id u) λ read own.
        >>=-Always_of u (IsOwn u) _ _ (found-Always u read) (λ db. found-Returns u read db own)
          λ p own'. >>=-Always u _ _ (fail_if-Always u _ _) λ _.
            >>=-Always_of u (IsOwn u) _ _ (or_bad_date-Always u _)
              (λ db. or_bad_date-Returns u _ db (updated-IfOwn u policy now req p own'))
              λ q own''. >>=-Always u _ _ (update-Always u d q own'') λ _. pure-Always u q

  patch-effect :
      (now : Time) (id : Uuid) (req : PatchRequest)
      → Always u (Profile.patch (profile_repository d) v policy now id u req)
  unfolding Profile.patch
  patch-effect now id req = >>=-Always u _ _ (check-Always u (validate_patch req)) λ _.
      >>=-Always u _ _
        (fail_if-Always u (not (non_empty (patch_update policy (fields_of req.fields)))) no_fields)
        λ _.
          patch-Always u d now id _ req.version
            (patch_update-AllAllowed policy (fields_of req.fields))

  delete-effect :
      (now : Time) (id : Uuid) (hard : Bool) (version : ℤ)
      → Always u (Profile.delete (profile_repository d) v policy now id u hard version)
  unfolding Profile.delete
  delete-effect now id hard version = >>=-Always u _ _ (get_by_id-Always u id u) λ read.
      >>=-Always u _ _ (found-Always u read)
        λ p. >>=-Always u _ _ (fail_if-Always u _ _) λ _. delete-Always u d now id hard version

  bulk_delete-effect :
      (now : Time) (req : BulkDeleteRequest)
      → Always u (Profile.bulk_delete (profile_repository d) v policy now u req)
  unfolding Profile.bulk_delete
  bulk_delete-effect now req =
      >>=-Always u _ _ (fail_if-Always u _ _) λ _. bulk_delete-Always u d now req.ids req.hard

  bulk_create-effect :
      (now : ℕ → Time) (id : ℕ → Uuid) (req : BulkCreateRequest) (db : Db)
      → Acts u db (Profile.bulk_create (profile_repository d) v policy now id u req db).1
  unfolding Profile.bulk_create
  bulk_create-effect now id req db =
      let own = bulk_items-IsOwn u v policy now id 0 req.profiles in
      go (bulk_items v policy now id u 0 req.profiles) own
    where
      go :
          (made : List Profile × List (Option Error))
          → All (IsOwn u) made.0
          → Acts u db (Profile.store_items (profile_repository d) made db).1
      go ([], errs) own = Acts-refl u db
      go (p ∷ ps, errs) own = (bulk_create-Always u d (p ∷ ps) own).acts db

  -- Every call of the user acts as steps of the user.
  pub perform-Acts : (r : Readings) (c : Call) (db : Db) → Acts u db (perform d v policy r u c db)
  unfolding perform
  perform-Acts r (Call.create req) db = (create-effect (r.now 0) (r.new_id 0) req).acts db
  perform-Acts r (Call.bulk_create req) db = bulk_create-effect r.now r.new_id req db
  perform-Acts r (Call.get id) db = (get-effect id).acts db
  perform-Acts r (Call.list f) db = (list-effect f).acts db
  perform-Acts r (Call.update id req) db = (update-effect (r.now 0) id req).acts db
  perform-Acts r (Call.patch id req) db = (patch-effect (r.now 0) id req).acts db
  perform-Acts r (Call.delete id hard version) db =
      (delete-effect (r.now 0) id hard version).acts db
  perform-Acts r (Call.bulk_delete req) db = (bulk_delete-effect (r.now 0) req).acts db

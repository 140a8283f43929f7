-- ===== src/Db/Actions.antt =====
-- Each operation of the profile repository acts as steps of the user that it is called for.
use api_free_demo.Base.{
  ◌≡◌, refl, Bool, true, false, Option, none, some, List, [], ◌∷◌, arith, All, ℤ,
}
use api_free_demo.Base.Outcome.{Outcome, ok, err, state_of, pure}
use api_free_demo.Time.{Time}
use api_free_demo.Profile.{Uuid, Profile, Fields, Filter}
use api_free_demo.Db.Tables.{Db, Driver, first}
use api_free_demo.Db.Profiles
use api_free_demo.Db.Assignments.{
  patch_row, mark_deleted, bind, bound, column, assignments, Assignment,
}
use api_free_demo.Db.Profiles.{
  insert, rollback, transaction, insert_all, update_rows, delete_rows, owned, owned_version,
  owned_among, set_columns, fetch_by_id, live, or_not_found, or_no_rows,
}
use api_free_demo.Db.Query.{list_profiles}
use api_free_demo.Db.Steps.{here}
use api_free_demo.Db.Columns.{
  KeepsIdentity, KeepsIdentity-RevisesIf, AllAllowed, bind-Returns, mark_deleted-KeepsIdentity,
  patch_row-KeepsIdentity,
}
use api_free_demo.Db.Rules.{
  Acts, Always, pure-Always, query-Always, fail_if-Always, >>=-Always, >>=-Always_of,
  statement-Always,
}
use api_free_demo.Db.RowRules.{
  PicksOwn, Revises, update_rows-Always, delete_rows-Always, try_update_rows-Always, insert-Always,
}

abbrev pub IsOwn : Uuid → Profile → Type 0
IsOwn u p = p.user_id ≡ u

module _ (u : Uuid) where
  or_not_found-state : (o : Option Profile) (db : Db) → state_of (or_not_found o db) ≡ db
  or_not_found-state none db = refl
  or_not_found-state (some p) db = refl

  or_no_rows-state : (o : Option Profile) (db : Db) → state_of (or_no_rows o db) ≡ db
  or_no_rows-state none db = refl
  or_no_rows-state (some p) db = refl

  pub get_by_id-Always : (id user_id : Uuid) → Always u (Profiles.get_by_id id user_id)
  unfolding Profiles.get_by_id
  get_by_id-Always id user_id =
      statement-Always u _
        (query-Always u _ λ db. or_not_found-state (first (live id user_id) db.profiles) db)

  fetch_by_id-Always : (id : Uuid) → Always u (fetch_by_id id)
  unfolding fetch_by_id
  fetch_by_id-Always id =
      statement-Always u _ (query-Always u _ λ db. or_no_rows-state (first _ db.profiles) db)

  pub list_profiles-Always : (f : Filter) → Always u (list_profiles f)
  unfolding list_profiles
  list_profiles-Always f =
      >>=-Always u _ _ (statement-Always u _ (query-Always u _ (λ db. refl))) λ rows.
        >>=-Always u _ _ (statement-Always u _ (query-Always u _ (λ db. refl)))
          λ total. query-Always u _ (λ db. refl)

  pub create-Always : (d : Driver) (p : Profile) → IsOwn u p → Always u (Profiles.create d p)
  unfolding Profiles.create
  create-Always d p own = statement-Always u (insert d p) (insert-Always u d p own)

  insert_all-Always :
      (d : Driver) (ps : List Profile) → All (IsOwn u) ps → Always u (insert_all d ps)
  unfolding insert_all
  insert_all-Always d [] h = pure-Always u tt
  insert_all-Always d (p ∷ ps) h =
      >>=-Always u _ _ (statement-Always u (insert d p) (insert-Always u d p h.0))
        λ _. insert_all-Always d ps h.1

  rollback-Acts :
      {A : Type 0} (db : Db) (o : Outcome Db A)
      → Acts u db (state_of o)
      → Acts u db (state_of (rollback db o))
  rollback-Acts db (ok a s) h = h
  rollback-Acts db (err e s) h = record { same_users = refl; steps = here }

  transaction-Always :
      (d : Driver) (ps : List Profile) → All (IsOwn u) ps → Always u (transaction d ps)
  unfolding transaction
  transaction-Always d ps h =
      >>=-Always u _ _ (statement-Always u (pure tt) (pure-Always u tt)) λ _.
        >>=-Always u _ _ (insert_all-Always d ps h)
          λ _. statement-Always u (pure tt) (pure-Always u tt)

  pub bulk_create-Always :
      (d : Driver) (ps : List Profile) → All (IsOwn u) ps → Always u (Profiles.bulk_create d ps)
  unfolding Profiles.bulk_create
  bulk_create-Always d [] h = query-Always u _ (λ db. refl)
  bulk_create-Always d (p ∷ ps) h = record {
    acts = λ db.
        rollback-Acts db (transaction d (p ∷ ps) db) ((transaction-Always d (p ∷ ps) h).acts db);
  }

  owned-PicksOwn : (id : Uuid) → PicksOwn u (owned id u)
  owned-PicksOwn id row h = ground arith

  owned_version-PicksOwn : (id : Uuid) (version : ℤ) → PicksOwn u (owned_version id u version)
  owned_version-PicksOwn id version row h = ground arith

  owned_among-PicksOwn : (ids : List Uuid) → PicksOwn u (owned_among u ids)
  owned_among-PicksOwn ids row h = ground arith

  set_columns-Revises : (d : Driver) (p : Profile) → Revises u (set_columns d p)
  set_columns-Revises d p row own = record {
    owner = own;
    same_id = refl;
    same_owner = refl;
    same_creation = refl;
  }

  pub update-Always : (d : Driver) (p : Profile) → IsOwn u p → Always u (Profiles.update d p)
  unfolding Profiles.update
  update-Always d p own =
      >>=-Always u _ _
        (statement-Always u _ (
          >>=-Always u _ _ (fail_if-Always u _ _) (λ _.
            update_rows-Always u (owned p.id p.user_id) (set_columns d p)
              (λ row h. owned-PicksOwn p.id row (rw own at h)) (set_columns-Revises d p))))
        (λ count. fail_if-Always u _ _)

  bound-Always : (d : Driver) (o : Option (Option Assignment)) → Always u (bound d o)
  bound-Always d none = query-Always u _ (λ db. refl)
  bound-Always d (some none) = query-Always u _ (λ db. refl)
  bound-Always d (some (some a)) = query-Always u _ (λ db. refl)

  bind-Always : (d : Driver) (fields : Fields) → Always u (bind d fields)
  unfolding bind
  bind-Always d [] = query-Always u _ (λ db. refl)
  bind-Always d ((k, v) ∷ fields) =
      >>=-Always u _ _ (bound-Always d (column k (assignments d v)))
        λ a. >>=-Always u _ _ (bind-Always d fields) λ rest. query-Always u _ (λ db. refl)

  -- The names of the fields are those of the whitelist.
  pub patch-Always :
      (d : Driver) (now : Time) (id : Uuid) (fields : Fields) (version : ℤ)
      → AllAllowed fields
      → Always u (Profiles.patch d now id u fields version)
  unfolding Profiles.patch
  patch-Always d now id fields version h =
      >>=-Always u _ _
        (statement-Always u _ (
          >>=-Always_of u (All KeepsIdentity) (bind d fields) _ (bind-Always d fields)
            (λ db. bind-Returns d fields db h)
            (λ sets k.
              try_update_rows-Always u d (owned_version id u version)
                (patch_row (d.kept_time now) sets) (owned_version-PicksOwn id version)
                (KeepsIdentity-RevisesIf u _ (patch_row-KeepsIdentity (d.kept_time now) sets k)))))
        (λ count. >>=-Always u _ _ (fail_if-Always u _ _) (λ _. fetch_by_id-Always id))

  pub delete-Always :
      (d : Driver) (now : Time) (id : Uuid) (hard : Bool) (version : ℤ)
      → Always u (Profiles.delete d now id u hard version)
  unfolding Profiles.delete
  delete-Always d now id true version =
      >>=-Always u _ _
        (statement-Always u _
          (delete_rows-Always u (owned_version id u version) (owned_version-PicksOwn id version)))
        (λ count. fail_if-Always u _ _)
  delete-Always d now id false version =
      >>=-Always u _ _
        (statement-Always u _ (
          try_update_rows-Always u d (owned_version id u version) (mark_deleted (d.kept_time now))
            (owned_version-PicksOwn id version)
            (KeepsIdentity-RevisesIf u _ (mark_deleted-KeepsIdentity (d.kept_time now)))))
        (λ count. fail_if-Always u _ _)

  pub bulk_delete-Always :
      (d : Driver) (now : Time) (ids : List Uuid) (hard : Bool)
      → Always u (Profiles.bulk_delete d now u ids hard)
  unfolding Profiles.bulk_delete
  bulk_delete-Always d now [] hard = pure-Always u 0
  bulk_delete-Always d now (id ∷ ids) true =
      statement-Always u _
        (delete_rows-Always u (owned_among u (id ∷ ids)) (owned_among-PicksOwn (id ∷ ids)))
  bulk_delete-Always d now (id ∷ ids) false = statement-Always u _ (
      update_rows-Always u (owned_among u (id ∷ ids)) _ (owned_among-PicksOwn (id ∷ ids))
        (λ row own. record {
          owner = own;
          same_id = refl;
          same_owner = refl;
          same_creation = refl;
        }))

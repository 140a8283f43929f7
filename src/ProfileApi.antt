-- ===== src/ProfileApi.antt =====
-- The profile service on the sqlx repository, as cmd/api/main.go wires them: what a call of a
-- user does to the tables.
pub mod Owners
pub mod Effects
pub mod Isolation
pub mod Contracts
pub mod Reads
pub mod Updates
pub mod Creates
pub mod Batches
pub mod Overwrites
pub mod Deletes
pub mod Patches
pub mod Listing
pub mod Sample
mod Tests
use api_free_demo.Base.{ℕ, Bool, List, [], ◌∷◌, ℤ}
use api_free_demo.Base.Outcome.{M, state_of}
use api_free_demo.Time.{Time}
use api_free_demo.Validation.{Validator}
use api_free_demo.Profile
use api_free_demo.Profile.{
  Uuid, Profile, CreateRequest, UpdateRequest, PatchRequest, Filter, BulkCreateRequest,
  BulkDeleteRequest, Policy,
}
use api_free_demo.Db.{Db, Driver, profile_repository}

-- A call of the service
pub data Call : Type 0 where
  create : CreateRequest → Call
  bulk_create : BulkCreateRequest → Call
  get : Uuid → Call
  list : Filter → Call
  update : Uuid → UpdateRequest → Call
  patch : Uuid → PatchRequest → Call
  delete : Uuid → Bool → ℤ → Call
  bulk_delete : BulkDeleteRequest → Call

-- What a call reads from outside: the times and the fresh identifiers, in order.
pub record Readings : Type 0 where
  pub now : ℕ → Time
  pub new_id : ℕ → Uuid

module _ (d : Driver) (v : Validator) (policy : Policy) where
  -- The tables after a call of a user, whatever the call returns
  unfoldable pub perform : Readings → Uuid → Call → Db → Db
  perform r u (create req) db =
      state_of (Profile.create (profile_repository d) v policy (r.now 0) (r.new_id 0) u req db)
  perform r u (bulk_create req) db =
      (Profile.bulk_create (profile_repository d) v policy r.now r.new_id u req db).1
  perform r u (get id) db = state_of (Profile.get (profile_repository d) v policy id u db)
  perform r u (list f) db = state_of (Profile.list (profile_repository d) v policy f db)
  perform r u (update id req) db =
      state_of (Profile.update (profile_repository d) v policy (r.now 0) id u req db)
  perform r u (patch id req) db =
      state_of (Profile.patch (profile_repository d) v policy (r.now 0) id u req db)
  perform r u (delete id hard version) db =
      state_of (Profile.delete (profile_repository d) v policy (r.now 0) id u hard version db)
  perform r u (bulk_delete req) db =
      state_of (Profile.bulk_delete (profile_repository d) v policy (r.now 0) u req db)

  -- Calls of any users, one after the other
  pub perform_all : List (Readings × Uuid × Call) → Db → Db
  perform_all [] db = db
  perform_all ((r, u, c) ∷ calls) db = perform_all calls (perform r u c db)

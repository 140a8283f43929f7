-- ===== src/ProfileApi/Reads.antt =====
-- `Service.Get` when the database answers.
use api_free_demo.Base.{◌≡◌, refl, none, some, []}
use api_free_demo.Base.Outcome.{Error, ok, err}
use api_free_demo.Validation.{Validator}
use api_free_demo.Profile
use api_free_demo.Profile.{Uuid, Profile, Policy}
use api_free_demo.Db
use api_free_demo.Db.{Db, Driver, profile_repository, first, live}

module _ (d : Driver) (v : Validator) (policy : Policy) (id u : Uuid) (db : Db)
    (answers : db.faults ≡ []) where
  pub get_live :
      (p : Profile)
      → first (live id u) db.profiles ≡ some p
      → Profile.get (profile_repository d) v policy id u db ≡ ok p db
  unfolding Profile.get
  get_live p e = rw (Db.get_by_id_answers id u db _ answers e) refl

  pub get_missing :
      first (live id u) db.profiles ≡ none
      → Profile.get (profile_repository d) v policy id u db ≡ err Error.profile_not_found db
  unfolding Profile.get
  get_missing e = rw (Db.get_by_id_answers id u db _ answers e) refl

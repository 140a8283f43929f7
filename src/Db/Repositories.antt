-- ===== src/Db/Repositories.antt =====
-- The sqlx implementation of the repository interface: `NewProfileRepository`.
use api_free_demo.Profile.{Repository}
use api_free_demo.Db.Tables.{Db, Driver}
use api_free_demo.Db.Profiles
use api_free_demo.Db.Query.{list_profiles}

abbrev pub profile_repository : Driver → Repository Db
profile_repository d = record {
  create = Profiles.create d;
  bulk_create = Profiles.bulk_create d;
  update = Profiles.update d;
  patch = Profiles.patch d;
  delete = Profiles.delete d;
  bulk_delete = Profiles.bulk_delete d;
  get_by_id = Profiles.get_by_id;
  list = list_profiles;
}

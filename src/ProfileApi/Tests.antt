-- ===== src/ProfileApi/Tests.antt =====
-- Runs of the profile service on two small tables.
use api_free_demo.Base.{
  ℕ, ◌≡◌, ◌≢◌, refl, ◌+◌, ◌⊎◌, Bool, true, false, Option, none, some, List, [], ◌∷◌, Text, codes,
  length, ℤ, pos, increment, arith,
}
use api_free_demo.Base
use api_free_demo.Base.Outcome.{Error, ok, err}
use api_free_demo.Base.Triple.{Ends}
use api_free_demo.Strings
use api_free_demo.Time
use api_free_demo.Profile
use api_free_demo.Profile.{
  Uuid, Profile, CreateRequest, UpdateRequest, BulkCreateRequest, BulkDeleteRequest, PatchRequest,
  Policy, Value,
}
use api_free_demo.Db
use api_free_demo.Db.{Db, Driver, UserRow, profile_repository}
use api_free_demo.Db.Steps.{HasUniqueIds}
use api_free_demo.ProfileApi.{Readings, Call, perform_all}
use api_free_demo.ProfileApi.Isolation.{rows_of, perform_all_isolates, perform_all-HasUniqueIds}
use api_free_demo.ProfileApi.Contracts.{Unchanged, SameTables}
use api_free_demo.ProfileApi.Updates.{IsUpdate, update_contract, get-update, second_update_refused}
use api_free_demo.ProfileApi.Creates.{IsCreation, create_contract, get-create}
use api_free_demo.ProfileApi.Overwrites.{update_overwrites}
use api_free_demo.ProfileApi.Deletes.{IsDeletion, delete_contract}
use api_free_demo.ProfileApi.Patches.{Never, stale_patch}
use api_free_demo.ProfileApi.Batches.{AllOrNone, bulk_create_contract, bulk_create_hides_failure}
use api_free_demo.ProfileApi.Sample.{driver, validator, policy, person, tables, names}

abbrev rename : ℤ → UpdateRequest
rename version = record { create = names; version = version }

abbrev renamed : Profile
renamed = record (person 10 1) {
  first_name = codes "Bea";
  last_name = codes "M";
  updated_at = 9001;
  version = pos 2;
}

abbrev after_update : Db
after_update = record tables { profiles = record renamed { updated_at = 9000 } ∷ person 20 2 ∷ [] }

update-run :
    Profile.update (profile_repository driver) validator policy 9001 10 1 (rename (pos 1)) tables
    ≡ ok renamed after_update
unfolding Profile.update Profile.validate_update Profile.create_failures Profile.updated
    Profile.assign_optional_fields Profile.sanitize_field Strings.trim_space Strings.trim_left
    Strings.trim_right Strings.is_space Db.get_by_id Db.update Db.statement Base.text_eq
    Base.increment
update-run = refl

get-update_example :
    (Profile.get (profile_repository driver) validator policy 10 1 after_update
      ≡ ok (record renamed { updated_at = 9000 }) after_update)
    × (renamed.version ≡ increment (pos 1))
    × (renamed.updated_at ≡ 9001)
get-update_example =
    get-update driver validator policy 9001 10 1 (rename (pos 1)) tables renamed after_update
      update-run refl

update_contract_example :
    Ends (IsUpdate driver validator policy 9001 10 1 (rename (pos 1)) tables) (Unchanged tables) (
      Profile.update (profile_repository driver) validator policy 9001 10 1 (rename (pos 1)) tables)
update_contract_example = update_contract driver validator policy 9001 10 1 (rename (pos 1)) tables

rename-valid : Profile.validate_update validator (rename (pos 1)) ≡ none
unfolding Profile.validate_update Profile.create_failures
rename-valid = refl

second_update_refused_example :
    Profile.update
      (profile_repository driver)
      validator
      policy
      9002
      10
      1
      (rename (pos 1))
      after_update
    ≡ err Error.version_conflict after_update
second_update_refused_example =
    second_update_refused driver validator policy 9001 9002 10 1 (rename (pos 1)) (rename (pos 1))
      tables after_update renamed update-run refl rename-valid refl

abbrev made : Profile
made = record (person 30 1) {
  first_name = codes "Bea";
  last_name = codes "M";
  created_at = 9001;
  updated_at = 9001;
}

abbrev after_create : Db
after_create = record tables {
  profiles = person 10 1 ∷ person 20 2 ∷ record made { created_at = 9000; updated_at = 9000 } ∷ [];
}

create-run :
    Profile.create (profile_repository driver) validator policy 9001 30 1 names tables
    ≡ ok made after_create
unfolding Profile.create Profile.validate_create Profile.create_failures Profile.new_profile
    Profile.assign_optional_fields Profile.sanitize_field Strings.trim_space Strings.trim_left
    Strings.trim_right Strings.is_space Db.create Db.statement
create-run = refl

get-create_example :
    (Profile.get (profile_repository driver) validator policy 30 1 after_create
      ≡ ok (record made { created_at = 9000; updated_at = 9000 }) after_create)
    × (made.version ≡ pos 1)
get-create_example =
    get-create driver validator policy 9001 30 1 names tables made after_create create-run refl

create_contract_example :
    Ends
      (IsCreation driver validator policy 9001 30 1 names tables)
      (Unchanged tables)
      (Profile.create (profile_repository driver) validator policy 9001 30 1 names tables)
create_contract_example = create_contract driver validator policy 9001 30 1 names tables

abbrev dated : CreateRequest
dated = record names { date_of_birth = some (codes "1815-12-10") }

dated-valid : Profile.validate_create validator dated ≡ none
unfolding Profile.validate_create Profile.create_failures Time.parse_date Time.date Time.days_in
    Strings.digits_from
dated-valid = refl

abbrev readings : Readings
readings = record { now = λ n. 9 + n; new_id = λ n. 30 + n }

-- User 1 writes to a profile of user 2, and to one of its own.
abbrev calls : List (Readings × Uuid × Call)
calls =
    (readings, 1, Call.update 20 (rename (pos 1)))
    ∷ (readings, 1, Call.delete 20 true (pos 1))
    ∷ (readings, 1, Call.create names)
    ∷ (readings, 1, Call.delete 10 false (pos 1))
    ∷ []

one_ne_two : ◌≢◌ {A = ℕ} 1 2
one_ne_two = ground arith

perform_all_isolates_example :
    (rows_of 2 (perform_all driver validator policy calls tables).profiles
      ≡ rows_of 2 tables.profiles)
    × ((perform_all driver validator policy calls tables).users ≡ tables.users)
perform_all_isolates_example =
    perform_all_isolates driver validator policy 2 calls tables
      (one_ne_two, (one_ne_two, (one_ne_two, (one_ne_two, tt))))

perform_all-HasUniqueIds_example :
    HasUniqueIds (perform_all driver validator policy calls tables).profiles
perform_all-HasUniqueIds_example =
    perform_all-HasUniqueIds driver validator policy calls tables (refl, (refl, tt))

-- The second payload has no name.
abbrev batch : BulkCreateRequest
batch = record { profiles = names ∷ record names { first_name = [] } ∷ [] }

bulk_create_contract_example :
    ((Profile.bulk_create
        (profile_repository driver)
        validator
        policy
        readings.now
        readings.new_id
        1
        batch
        tables).0
      ≡ Profile.bulk_items validator policy readings.now readings.new_id 1 0 batch.profiles)
    × AllOrNone driver tables
        (Profile.bulk_items validator policy readings.now readings.new_id 1 0 batch.profiles).0
        (Profile.bulk_create
          (profile_repository driver)
          validator
          policy
          readings.now
          readings.new_id
          1
          batch
          tables).1
bulk_create_contract_example =
    bulk_create_contract driver validator policy readings.now readings.new_id 1 batch tables

abbrev offline : Db
offline = record tables { faults = some (codes "connection refused") ∷ [] }

bulk_create_hides_failure_example :
    ((Profile.bulk_create
        (profile_repository driver)
        validator
        policy
        readings.now
        readings.new_id
        1
        batch
        offline).0
      ≡ Profile.bulk_items validator policy readings.now readings.new_id 1 0 batch.profiles)
    × SameTables offline
        (Profile.bulk_create
          (profile_repository driver)
          validator
          policy
          readings.now
          readings.new_id
          1
          batch
          offline).1
bulk_create_hides_failure_example =
    bulk_create_hides_failure driver validator policy readings.now readings.new_id 1 batch offline
      (codes "connection refused") [] refl

abbrev revised : Profile
revised = record (person 10 1) { first_name = codes "Bea"; version = pos 2 }

-- Another request has written the row of `revised` before.
abbrev raced : Db
raced = record tables { profiles = record (person 10 1) { version = pos 5 } ∷ [] }

update_overwrites_example :
    (after : Db) × (Db.update driver revised raced ≡ ok tt after)
    × (Db.first (Db.owned 10 1) after.profiles
        ≡ some (Db.set_columns driver revised (record (person 10 1) { version = pos 5 })))
update_overwrites_example =
    update_overwrites driver revised (record (person 10 1) { version = pos 5 }) raced refl refl refl

delete_contract_example :
    Ends
      (λ _. IsDeletion driver 9001 10 1 false (pos 1) tables)
      (Unchanged tables)
      (Profile.delete (profile_repository driver) validator policy 9001 10 1 false (pos 1) tables)
delete_contract_example = delete_contract driver validator policy 9001 10 1 false (pos 1) tables

abbrev patch_name : PatchRequest
patch_name = record {
  fields = some ((codes "first_name", Value.str (codes "Bea")) ∷ []);
  version = pos 7;
}

stale_patch_example :
    Ends Never
      (Unchanged tables)
      (Profile.patch (profile_repository driver) validator policy 9001 10 1 patch_name tables)
stale_patch_example = stale_patch driver validator policy 9001 10 1 patch_name tables refl

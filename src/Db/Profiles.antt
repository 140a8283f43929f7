-- ===== src/Db/Profiles.antt =====
-- internal/infrastructure/db/profile_repository.go: each statement from its SQL text.
use api_free_demo.Base.{
  ℕ, ◌≡◌, ◌∙◌, ap, Bool, true, false, not, ◌&&◌, Option, none, some, List, [], ◌∷◌, ◌++◌, codes, ℤ,
  eq_ℤ, fits_int4, any, ◌==◌, if◌then◌else◌,
}
use api_free_demo.Base.Outcome.{Error, Outcome, ok, err, M, pure, ◌>>=◌, ◌>>◌, fail_if}
use api_free_demo.Time.{Time}
use api_free_demo.Profile.{Uuid, Profile, Fields}
use api_free_demo.Db.Tables.{
  Db, Driver, UserRow, statement, statement_runs, update_where, delete_where, affected, first,
  is_null,
}
use api_free_demo.Db.Assignments.{bind, try_update_rows, patch_row, mark_deleted}

abbrev pub on_user : Uuid → Db → Bool
on_user user_id db = any (λ (u : UserRow). u.id == user_id) db.users

abbrev pub has_profile : Uuid → List Profile → Bool
has_profile id rows = any (λ (p : Profile). p.id == id) rows

-- The row that the INSERT stores: `deleted_at` is not among its columns, and a column keeps a time
-- in its own precision.
abbrev pub inserted : Driver → Profile → Profile
inserted d p = record p {
  created_at = d.kept_time p.created_at;
  updated_at = d.kept_time p.updated_at;
  deleted_at = none;
}

-- Why the table refuses a row: the range of the version, the primary key, the reference
unfoldable pub insert_refusal : Driver → Profile → Db → Option Error
insert_refusal d p db =
    if not (fits_int4 p.version)
    then some (Error.message d.out_of_range)
    else if has_profile p.id db.profiles
    then some (Error.message d.unique_violation)
    else if on_user p.user_id db
    then none
    else some (Error.message d.foreign_key_violation)

abbrev pub insert_unless : Driver → Option Error → Profile → M Db (Unit {0})
insert_unless d (some e) p db = err e db
insert_unless d none p db = ok tt (record db { profiles = db.profiles ++ inserted d p ∷ [] })

-- `INSERT INTO profiles …`
unfoldable pub insert : Driver → Profile → M Db (Unit {0})
unfolding insert_refusal
insert d p db = insert_unless d (insert_refusal d p db) p db

-- `ProfileRepository.Create`
unfoldable pub create : Driver → Profile → M Db (Unit {0})
unfolding insert
create d p = statement (insert d p)

-- The loop of `BulkCreate`, inside the transaction
unfoldable pub insert_all : Driver → List Profile → M Db (Unit {0})
unfolding insert
insert_all d [] = pure tt
insert_all d (p ∷ ps) = do statement (insert d p); insert_all d ps

-- A rollback brings the rows back; the faults that were met stay met.
abbrev pub rollback : {A : Type 0} → Db → Outcome Db A → Outcome Db A
rollback before (ok a db) = ok a db
rollback before (err e db) = err e (record before { faults = db.faults })

-- Begin, the inserts, commit
unfoldable pub transaction : Driver → List Profile → M Db (Unit {0})
unfolding insert_all
transaction d ps = do statement (pure tt); insert_all d ps; statement (pure tt)

-- `ProfileRepository.BulkCreate`: what fails on the way, the commit included, leaves the rows as
-- they were.
unfoldable pub bulk_create : Driver → List Profile → M Db (Unit {0})
unfolding transaction
bulk_create d [] db = ok tt db
bulk_create d (p ∷ ps) db = rollback db (transaction d (p ∷ ps) db)

-- `WHERE id = ? AND user_id = ?`
abbrev pub owned : Uuid → Uuid → Profile → Bool
owned id user_id row = row.id == id && row.user_id == user_id

-- The SET list of `Update`
abbrev pub set_columns : Driver → Profile → Profile → Profile
set_columns d p row = record row {
  first_name = p.first_name;
  last_name = p.last_name;
  bio = p.bio;
  profile_image = p.profile_image;
  cover_image = p.cover_image;
  date_of_birth = p.date_of_birth;
  phone = p.phone;
  website = p.website;
  location = p.location;
  updated_at = d.kept_time p.updated_at;
  version = p.version;
}

-- An UPDATE by a test and a change: the number of rows that it met
abbrev pub update_rows : (Profile → Bool) → (Profile → Profile) → M Db ℕ
update_rows test f db =
    ok (affected test db.profiles) (record db { profiles = update_where test f db.profiles })

abbrev pub delete_rows : (Profile → Bool) → M Db ℕ
delete_rows test db =
    ok (affected test db.profiles) (record db { profiles = delete_where test db.profiles })

-- `ProfileRepository.Update`
unfoldable pub update : Driver → Profile → M Db (Unit {0})
update d p = do
  count ← statement (do
    fail_if (not (fits_int4 p.version)) (Error.message d.out_of_range)
    update_rows (owned p.id p.user_id) (set_columns d p))
  fail_if (count == 0) Error.profile_not_found

abbrev pub owned_version : Uuid → Uuid → ℤ → Profile → Bool
owned_version id user_id version row = owned id user_id row && eq_ℤ row.version version

-- A missing row is the error `sql.ErrNoRows`.
abbrev pub or_no_rows : Option Profile → M Db Profile
or_no_rows none db = err (Error.message (codes "sql: no rows in result set")) db
or_no_rows (some p) db = ok p db

-- `fetchByID`
unfoldable pub fetch_by_id : Uuid → M Db Profile
fetch_by_id id = statement λ db. or_no_rows (first (λ (row : Profile). row.id == id) db.profiles) db

-- `ProfileRepository.Patch`
unfoldable pub patch : Driver → Time → Uuid → Uuid → Fields → ℤ → M Db Profile
unfolding bind patch_row try_update_rows fetch_by_id
patch d now id user_id fields version = do
  count ← statement (do
    sets ← bind d fields
    try_update_rows d (owned_version id user_id version) (patch_row (d.kept_time now) sets))
  fail_if (count == 0) Error.version_conflict
  fetch_by_id id

-- `ProfileRepository.Delete`
unfoldable pub delete : Driver → Time → Uuid → Uuid → Bool → ℤ → M Db (Unit {0})
unfolding mark_deleted try_update_rows
delete d now id user_id true version = do
  count ← statement (delete_rows (owned_version id user_id version))
  fail_if (count == 0) Error.profile_not_found
delete d now id user_id false version = do
  count ←
      statement
        (try_update_rows d (owned_version id user_id version) (mark_deleted (d.kept_time now)))
  fail_if (count == 0) Error.version_conflict

-- `WHERE user_id = ? AND id IN (?)`
abbrev pub owned_among : Uuid → List Uuid → Profile → Bool
owned_among user_id ids row = row.user_id == user_id && any (λ i. row.id == i) ids

-- `ProfileRepository.BulkDelete`
unfoldable pub bulk_delete : Driver → Time → Uuid → List Uuid → Bool → M Db ℕ
bulk_delete d now user_id [] hard = pure 0
bulk_delete d now user_id (id ∷ ids) true = statement (delete_rows (owned_among user_id (id ∷ ids)))
bulk_delete d now user_id (id ∷ ids) false = statement (
    update_rows (owned_among user_id (id ∷ ids))
      (λ row. record row { deleted_at = some (d.kept_time now) }))

-- `… AND (deleted_at IS NULL)`
abbrev pub live : Uuid → Uuid → Profile → Bool
live id user_id row = owned id user_id row && is_null row.deleted_at

-- A missing row is `ErrNotFound`, never a `nil` profile.
abbrev pub or_not_found : Option Profile → M Db (Option Profile)
or_not_found none db = err Error.profile_not_found db
or_not_found (some p) db = ok (some p) db

-- `ProfileRepository.GetByID`
unfoldable pub get_by_id : Uuid → Uuid → M Db (Option Profile)
get_by_id id user_id = statement λ db. or_not_found (first (live id user_id) db.profiles) db

pub get_by_id_answers :
    (id user_id : Uuid) (db : Db) (o : Option Profile)
    → db.faults ≡ []
    → first (live id user_id) db.profiles ≡ o
    → get_by_id id user_id db ≡ or_not_found o db
unfolding get_by_id
get_by_id_answers id user_id db o h e = statement_runs _ db h ∙ ap (λ r. or_not_found r db) e

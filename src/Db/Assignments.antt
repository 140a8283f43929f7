-- ===== src/Db/Assignments.antt =====
-- The statements of `Patch` and of a soft `Delete` in internal/infrastructure/db/profile_repository.go
-- that PostgreSQL may refuse row by row: their SET lists, and how they are carried out.
use api_free_demo.Base.{
  ℕ, Bool, Option, none, some, List, [], ◌∷◌, ◌++◌, Text, codes, text_eq, increment, fits_int4,
  if◌then◌else◌,
}
use api_free_demo.Base.Outcome.{Error, ok, err, M, pure, fail, ◌>>=◌}
use api_free_demo.Time.{Time}
use api_free_demo.Profile.{Profile, Value, Fields}
use api_free_demo.Db.Tables.{Db, Driver, affected}

-- A change of one column; `none`: the column is NOT NULL, or the value is out of its range.
abbrev pub Assignment : Type 0
Assignment = Profile → Option Profile

abbrev pub required_column {ℓ} : {A : Type ℓ} → (A → Profile → Profile) → Option A → Assignment
required_column set none row = none
required_column set (some a) row = some (set a row)

abbrev pub assign_required :
    {A : Type 0} → Option (Option A) → (A → Profile → Profile) → Option Assignment
assign_required none set = none
assign_required (some a) set = some (required_column set a)

abbrev pub assign_nullable :
    {A : Type 0} → Option (Option A) → (Option A → Profile → Profile) → Option Assignment
assign_nullable none set = none
assign_nullable (some a) set = some (λ row. some (set a row))

-- `column = ?` for a column of the table, by the column's type: those that describe the profile,
-- and those that identify and date the row
unfoldable pub describing : Driver → Value → List (Text × Option Assignment)
describing d v =
    (codes "first_name", assign_required (d.text_of v) (λ a row. record row { first_name = a }))
    ∷ (codes "last_name", assign_required (d.text_of v) (λ a row. record row { last_name = a }))
    ∷ (codes "bio", assign_nullable (d.text_of v) (λ a row. record row { bio = a }))
    ∷ (
      codes "profile_image",
      assign_nullable (d.text_of v) (λ a row. record row { profile_image = a }),
    )
    ∷ (codes "cover_image", assign_nullable (d.text_of v) (λ a row. record row { cover_image = a }))
    ∷ (
      codes "date_of_birth",
      assign_nullable (d.time_of v) (λ a row. record row { date_of_birth = a }),
    )
    ∷ (codes "phone", assign_nullable (d.text_of v) (λ a row. record row { phone = a }))
    ∷ (codes "website", assign_nullable (d.text_of v) (λ a row. record row { website = a }))
    ∷ (codes "location", assign_nullable (d.text_of v) (λ a row. record row { location = a }))
    ∷ []

unfoldable pub identifying : Driver → Value → List (Text × Option Assignment)
identifying d v =
    (codes "id", assign_required (d.uuid_of v) (λ a row. record row { id = a }))
    ∷ (codes "user_id", assign_required (d.uuid_of v) (λ a row. record row { user_id = a }))
    ∷ (codes "created_at", assign_required (d.time_of v) (λ a row. record row { created_at = a }))
    ∷ (codes "updated_at", assign_required (d.time_of v) (λ a row. record row { updated_at = a }))
    ∷ (codes "deleted_at", assign_nullable (d.time_of v) (λ a row. record row { deleted_at = a }))
    ∷ (codes "version", assign_required (d.int_of v) (λ a row. record row { version = a }))
    ∷ []

abbrev pub assignments : Driver → Value → List (Text × Option Assignment)
assignments d v = describing d v ++ identifying d v

abbrev pub column {ℓ} : {A : Type ℓ} → Text → List (Text × A) → Option A
column k [] = none
column k ((j, a) ∷ rest) = if text_eq k j then some a else column k rest

abbrev pub bound : Driver → Option (Option Assignment) → M Db Assignment
bound d none = fail (Error.message d.unknown_column)
bound d (some none) = fail (Error.message d.bad_argument)
bound d (some (some a)) = pure a

-- The SET list that `Patch` builds: the columns by name, and the values bound to them
unfoldable pub bind : Driver → Fields → M Db (List Assignment)
unfolding describing identifying
bind d [] = pure []
bind d ((k, v) ∷ fields) = do
  a ← bound d (column k (assignments d v))
  rest ← bind d fields
  pure (a ∷ rest)

-- The assignments, one after the other
unfoldable pub apply : List Assignment → Assignment
apply [] row = some row
apply (a ∷ rest) row = elim (a row) [ none ↦ none | some row' ↦ apply rest row' ]

-- `…, updated_at = ?, version = version + 1`
unfoldable pub touch : Time → Assignment
touch now row =
    if fits_int4 (increment row.version)
    then some (record row { updated_at = now; version = increment row.version })
    else none

abbrev pub try_row : (Profile → Bool) → Assignment → Assignment
try_row test f row = if test row then f row else some row

abbrev pub push : Option Profile → Option (List Profile) → Option (List Profile)
push none rows = none
push (some row) none = none
push (some row) (some rows) = some (row ∷ rows)

-- An UPDATE that a row may refuse; then no row changes.
unfoldable pub try_update : (Profile → Bool) → Assignment → List Profile → Option (List Profile)
try_update test f [] = some []
try_update test f (row ∷ rows) = push (try_row test f row) (try_update test f rows)

abbrev pub store_rows : Driver → ℕ → Option (List Profile) → M Db ℕ
store_rows d count none db = err (Error.message d.not_null_violation) db
store_rows d count (some rows) db = ok count (record db { profiles = rows })

unfoldable pub try_update_rows : Driver → (Profile → Bool) → Assignment → M Db ℕ
unfolding try_update
try_update_rows d test f db =
    store_rows d (affected test db.profiles) (try_update test f db.profiles) db

-- `touch` after the assignments of the request
unfoldable pub patch_row : Time → List Assignment → Assignment
unfolding apply touch
patch_row now sets row = elim (apply sets row) [ none ↦ none | some row' ↦ touch now row' ]

-- `deleted_at = ?, version = version + 1`
unfoldable pub mark_deleted : Time → Assignment
mark_deleted now row =
    if fits_int4 (increment row.version)
    then some (record row { deleted_at = some now; version = increment row.version })
    else none

-- ===== src/ProfileApi/Overwrites.antt =====
-- The UPDATE of the repository does not look at the version of the row.
use api_free_demo.Base.{◌≡◌, refl, Bool, true, false, some, List, [], ◌∷◌, arith, fits_int4, ◌==◌}
use api_free_demo.Base.Outcome.{ok}
use api_free_demo.Profile.{Uuid, Profile}
use api_free_demo.Db
use api_free_demo.Db.{
  Db, Driver, first, owned, affected, update_where, set_columns, statement, statement_runs,
  update_rows,
}

first-affected :
    (test : Profile → Bool) (rows : List Profile) (p : Profile)
    → first test rows ≡ some p
    → (affected test rows == 0) ≡ false
first-affected test [] p e = cc
first-affected test (row ∷ rows) p e = ground (arith, first-affected test rows p)

-- The first owned row after the change is the changed one.
first-changed :
    (d : Driver) (id u : Uuid) (q : Profile) (rows : List Profile) (p : Profile)
    → first (owned id u) rows ≡ some p
    → first (owned id u) (update_where (owned id u) (set_columns d q) rows)
      ≡ some (set_columns d q p)
first-changed d id u q [] p e = cc
first-changed d id u q (row ∷ rows) p e = ground (arith, first-changed d id u q rows p)

-- If the database answers and the version is in the range of its column, the repository's Update
-- overwrites the described columns of the owner's row, whatever version the row has: also a row
-- that another update has written since the profile was read.
pub update_overwrites :
    (d : Driver) (q p : Profile) (db : Db)
    → db.faults ≡ []
    → fits_int4 q.version ≡ true
    → first (owned q.id q.user_id) db.profiles ≡ some p
    → (after : Db) × (Db.update d q db ≡ ok tt after)
      × (first (owned q.id q.user_id) after.profiles ≡ some (set_columns d q p))
unfolding Db.update
update_overwrites d q p db answers fits there = (
  record db { profiles = update_where (owned q.id q.user_id) (set_columns d q) db.profiles },
  rw (statement_runs _ db answers)
      (rw fits (rw (first-affected (owned q.id q.user_id) db.profiles p there) refl)),
  first-changed d q.id q.user_id q db.profiles p there,
)

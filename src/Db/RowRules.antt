-- ===== src/Db/RowRules.antt =====
-- Rules for the calls that change rows of `profiles`: one user's rows are revised, removed or added.
use api_free_demo.Base.{
  ℕ, ◌≡◌, refl, Bool, true, false, Option, none, some, List, [], ◌∷◌, arith, Bool-cases, inl, inr,
}
use mathlib.Core.Path.{subst}
use api_free_demo.Base.Outcome.{Error, state_of}
use api_free_demo.Profile.{Uuid, Profile}
use api_free_demo.Db.Tables.{Db, Driver, update_where, delete_where, affected}
use api_free_demo.Db.Assignments.{Assignment, try_row, try_update, try_update_rows, store_rows}
use api_free_demo.Db.Profiles.{
  has_profile, inserted, update_rows, delete_rows, insert, insert_refusal, insert_unless,
}
use api_free_demo.Db.Steps.{IsRevision, Edit, done, keep, revise, remove, edit, add, one}
use api_free_demo.Db.Rules.{Acts, Always, Acts-refl, push-eq-some, insert_refusal-has_profile}

module _ (u : Uuid) where
  -- The test of a statement picks rows of the user.
  abbrev pub PicksOwn : (Profile → Bool) → Type 0
  PicksOwn test = (row : Profile) → test row ≡ true → row.user_id ≡ u

  -- A change of a row that is the user's own revises it.
  abbrev pub Revises : (Profile → Profile) → Type 0
  Revises f = (row : Profile) → row.user_id ≡ u → IsRevision u row (f row)

  abbrev pub RevisesIf : Assignment → Type 0
  RevisesIf f = (row row' : Profile) → row.user_id ≡ u → f row ≡ some row' → IsRevision u row row'

  update_where-Edit :
      (test : Profile → Bool) (f : Profile → Profile)
      → PicksOwn test
      → Revises f
      → (rows : List Profile) → Edit u rows (update_where test f rows)
  update_where-Edit test f h k [] = done
  update_where-Edit test f h k (row ∷ rows) = elim (Bool-cases (test row)) [
    | inl yes' ↦
        rw yes' (revise row (f row) (k row (h row yes')) (update_where-Edit test f h k rows))
    | inr no' ↦ rw no' (keep row (update_where-Edit test f h k rows))
  ]

  delete_where-Edit :
      (test : Profile → Bool)
      → PicksOwn test
      → (rows : List Profile) → Edit u rows (delete_where test rows)
  delete_where-Edit test h [] = done
  delete_where-Edit test h (row ∷ rows) = elim (Bool-cases (test row)) [
    | inl yes' ↦ rw yes' (remove row (h row yes') (delete_where-Edit test h rows))
    | inr no' ↦ rw no' (keep row (delete_where-Edit test h rows))
  ]

  pub update_rows-Always :
      (test : Profile → Bool) (f : Profile → Profile)
      → PicksOwn test
      → Revises f
      → Always u (update_rows test f)
  update_rows-Always test f h k = record {
    acts = λ db. record {
      same_users = refl;
      steps = one u (edit (update_where-Edit test f h k db.profiles));
    };
  }

  pub delete_rows-Always : (test : Profile → Bool) → PicksOwn test → Always u (delete_rows test)
  delete_rows-Always test h = record {
    acts = λ db. record {
      same_users = refl;
      steps = one u (edit (delete_where-Edit test h db.profiles));
    };
  }

  try_row-Edit :
      (test : Profile → Bool) (f : Assignment)
      → PicksOwn test
      → RevisesIf f
      → (row row' : Profile) → try_row test f row ≡ some row'
      → {rows rows' : List Profile} → Edit u rows rows'
      → Edit u (row ∷ rows) (row' ∷ rows')
  try_row-Edit test f h k row row' e {rows} {rows'} t = elim (Bool-cases (test row)) [
    | inl picked ↦ revise row row' (k row row' (h row picked) (ground arith)) t
    | inr left ↦
        let same : row ≡ row' = ground arith in
        subst (λ r. Edit u (row ∷ rows) (r ∷ rows')) same (keep row t)
  ]

  try_update-Edit :
      (test : Profile → Bool) (f : Assignment)
      → PicksOwn test
      → RevisesIf f
      → (rows rows' : List Profile) → try_update test f rows ≡ some rows'
      → Edit u rows rows'
  unfolding try_update
  try_update-Edit test f h k [] rows' e =
      let same : [] ≡ rows' = ground arith in subst (Edit u []) same done
  try_update-Edit test f h k (row ∷ rows) rows' e =
      let (row', rest, changed, updated, same) =
        push-eq-some (try_row test f row) (try_update test f rows) rows' e in
      subst (Edit u (row ∷ rows)) same
        (try_row-Edit test f h k row row' changed (try_update-Edit test f h k rows rest updated))

  store_rows-Acts :
      (d : Driver) (count : ℕ) (o : Option (List Profile)) (db : Db)
      → ((rows : List Profile) → o ≡ some rows → Edit u db.profiles rows)
      → Acts u db (state_of (store_rows d count o db))
  store_rows-Acts d count none db h = Acts-refl u db
  store_rows-Acts d count (some rows) db h = record {
    same_users = refl;
    steps = one u (edit (h rows refl));
  }

  pub try_update_rows-Always :
      (d : Driver) (test : Profile → Bool) (f : Assignment)
      → PicksOwn test
      → RevisesIf f
      → Always u (try_update_rows d test f)
  unfolding try_update_rows
  try_update_rows-Always d test f h k = record {
    acts = λ db.
        store_rows-Acts d (affected test db.profiles) (try_update test f db.profiles) db
          (try_update-Edit test f h k db.profiles);
  }

  insert_unless-Acts :
      (d : Driver) (o : Option Error) (p : Profile) (db : Db)
      → p.user_id ≡ u
      → (o ≡ none → has_profile p.id db.profiles ≡ false)
      → Acts u db (state_of (insert_unless d o p db))
  insert_unless-Acts d (some e) p db own h = Acts-refl u db
  insert_unless-Acts d none p db own h = record {
    same_users = refl;
    steps = one u (add (inserted d p) own (h refl));
  }

  -- An insertion of a row of the user's own
  pub insert-Always : (d : Driver) (p : Profile) → p.user_id ≡ u → Always u (insert d p)
  unfolding insert
  insert-Always d p own = record {
    acts = λ db.
        insert_unless-Acts d (insert_refusal d p db) p db own (insert_refusal-has_profile d p db);
  }

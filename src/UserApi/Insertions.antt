-- ===== src/UserApi/Insertions.antt =====
-- What the statements of a registration leave of the two tables.
use api_free_demo.Base.{
  ◌≡◌, refl, sym, ◌∙◌, ap, Bool, true, false, not, Option, none, some, List, [], ◌∷◌, ◌++◌, Text,
  fits_int4, if◌then◌else◌,
}
use api_free_demo.Base.Outcome.{Error, Outcome, ok, err, M, resume}
use api_free_demo.Base.Triple.{Ends, Triple}
use api_free_demo.User.{User}
use api_free_demo.Db.{
  Db, Driver, UserRow, statement, meet, clashes, user_refusal, insert_user, insert_user_unless,
  inserted_user, create_user, named, get_by_email, nil_or_user, or_null_scan, scan,
}

module _ (start : Db) where
  -- The rows are those of the start.
  abbrev pub SameRows : Db → Type 0
  SameRows db = (db.users ≡ start.users) × (db.profiles ≡ start.profiles)

  -- The row of the new account stands behind those of the start, where none had its identifier
  -- or its address.
  abbrev pub Added : Driver → User → Db → Type 0
  Added d u db =
      (db.users ≡ start.users ++ inserted_user d u ∷ [])
      × (clashes u start.users ≡ false)
      × (db.profiles ≡ start.profiles)

  meet-Triple :
      {A : Type 0} {m : M Db A} {P : A → Db → Type 0} (faults : List (Option Text)) (db : Db)
      → Triple SameRows m P (λ _. SameRows)
      → SameRows db
      → Ends P (λ _. SameRows) (meet faults m db)
  meet-Triple [] db t h = t.ends db h
  meet-Triple (none ∷ rest) db t h = t.ends (record db { faults = rest }) h
  meet-Triple (some e ∷ rest) db t h = h

  statement-Triple :
      {A : Type 0} {m : M Db A} {P : A → Db → Type 0}
      → Triple SameRows m P (λ _. SameRows)
      → Triple SameRows (statement m) P (λ _. SameRows)
  unfolding statement
  statement-Triple t = record { ends = λ db h. meet-Triple db.faults db t h }

  insert_user-Triple :
      (d : Driver) (u : User) → Triple SameRows (insert_user d u) (λ _. Added d u) (λ _. SameRows)
  unfolding insert_user user_refusal
  insert_user-Triple d u = record {
    ends = λ db h. by_range db (not (fits_int4 u.refresh_version)) h;
  }
    where
      by_clash :
          (db : Db) (b : Bool)
          → clashes u db.users ≡ b
          → SameRows db
          → Ends
              (λ _. Added d u)
              (λ _. SameRows)
              (insert_user_unless d
                (if b then some (Error.message d.unique_violation) else none)
                u
                db)
      by_clash db true e h = h
      by_clash db false e h =
          (ap (λ rows. rows ++ inserted_user d u ∷ []) h.0, sym (ap (clashes u) h.0) ∙ e, h.1)

      by_range :
          (db : Db) (b : Bool)
          → SameRows db
          → Ends
              (λ _. Added d u)
              (λ _. SameRows)
              (insert_user_unless d
                (if b
                  then some (Error.message d.out_of_range)
                  else if clashes u db.users
                  then some (Error.message d.unique_violation)
                  else none)
                u
                db)
      by_range db true h = h
      by_range db false h = by_clash db (clashes u db.users) refl h

  named-Ends :
      (d : Driver) (u : User) (o : Outcome Db (Unit {0}))
      → Ends (λ _. Added d u) (λ _. SameRows) o
      → Ends (λ _. Added d u) (λ _. SameRows) (named o)
  named-Ends d u (ok a db) h = h
  named-Ends d u (err e db) h = h

  pub create_user-Triple :
      (d : Driver) (u : User) → Triple SameRows (create_user d u) (λ _. Added d u) (λ _. SameRows)
  unfolding create_user
  create_user-Triple d u = record {
    ends = λ db h.
        named-Ends d u (statement (insert_user d u) db)
          ((statement-Triple (insert_user-Triple d u)).ends db h);
  }

  null_scan-Ends :
      (d : Driver) (o : Option User) (db : Db)
      → SameRows db
      → Ends (λ _. SameRows) (λ _. SameRows) (resume (λ u s. ok (some u) s) (or_null_scan d o db))
  null_scan-Ends d none db h = h
  null_scan-Ends d (some u) db h = h

  nil_or_user-Ends :
      (d : Driver) (o : Option UserRow) (db : Db)
      → SameRows db
      → Ends (λ _. SameRows) (λ _. SameRows) (nil_or_user d o db)
  nil_or_user-Ends d none db h = h
  nil_or_user-Ends d (some row) db h = null_scan-Ends d (scan row) db h

  pub get_by_email-Triple :
      (d : Driver) (email : Text)
      → Triple SameRows (get_by_email d email) (λ _. SameRows) (λ _. SameRows)
  unfolding get_by_email
  get_by_email-Triple d email =
      statement-Triple (record { ends = λ db h. nil_or_user-Ends d _ db h })

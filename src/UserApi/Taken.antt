-- ===== src/UserApi/Taken.antt =====
-- `Register` with an address that is taken.
use api_free_demo.Base.{
  ◌≡◌, refl, ◌∙◌, ap, Bool, true, ◌||◌, ◌&&◌, Option, none, some, List, [], ◌∷◌, Text, any, ◌==◌,
  arith, fits_int4,
}
use api_free_demo.Base.Outcome.{Error, Outcome, ok, err, state_of, resume}
use api_free_demo.Strings.{trim_space, to_lower}
use api_free_demo.Time.{Time}
use api_free_demo.Validation.{Validator}
use api_free_demo.User
use api_free_demo.User.{
  Uuid, User, RegisterRequest, TokenManager, Bcrypt, AuthResponse, validate_register,
  clean_register, new_user, is_taken,
}
use api_free_demo.Db
use api_free_demo.Db.{
  Db, Driver, UserRow, scan, statement, statement_runs, same_email, clashes, is_duplicate,
  create_user, get_by_email, nil_or_user, named, insert_user, first, is_null, or_null_scan,
}
use api_free_demo.UserApi.{Server, Moment, users, with_db}

any-wider :
    (p q : UserRow → Bool) (rows : List UserRow)
    → any q rows ≡ true
    → any (λ row. p row || q row) rows ≡ true
any-wider p q [] e = cc
any-wider p q (row ∷ rows) e = ground (arith, any-wider p q rows)

-- A new account whose address is taken is refused as a duplicate.
create_user-duplicate :
    (d : Driver) (u : User) (db : Db)
    → db.faults ≡ []
    → fits_int4 u.refresh_version ≡ true
    → any (same_email u.email) db.users ≡ true
    → is_duplicate d.unique_violation ≡ true
    → create_user d u db ≡ err Error.duplicate_email db
unfolding create_user insert_user Db.user_refusal clashes
create_user-duplicate d u db answers fits there names =
    ap named (statement_runs (insert_user d u) db answers)
    ∙ rw (fits, any-wider (λ row. row.id == u.id) (same_email u.email) db.users there)
        (rw names refl)

read-state :
    (d : Driver) (o : Option User) (db : Db)
    → state_of (resume (λ u s. ok (some u) s) (or_null_scan d o db)) ≡ db
read-state d none db = refl
read-state d (some u) db = refl

nil_or_user-state :
    (d : Driver) (row : Option UserRow) (db : Db) → state_of (nil_or_user d row db) ≡ db
nil_or_user-state d none db = refl
nil_or_user-state d (some row) db = read-state d (scan row) db

get_by_email-state :
    (d : Driver) (email : Text) (db : Db) → db.faults ≡ [] → state_of (get_by_email d email db) ≡ db
unfolding get_by_email
get_by_email-state d email db answers =
    ap state_of (statement_runs _ db answers)
    ∙ nil_or_user-state d (first (λ row. same_email email row && is_null row.deleted_at) db.users)
        db

attempted :
    {R : Type 0} (s : Server R) (o : Outcome Db (Option User))
    → state_of o ≡ s.db
    → (x : Option User) × ((elim (with_db s o) [ ok a s' ↦ ok a s' | err _ s' ↦ ok none s' ])
        ≡ ok x s)
attempted s (ok a db) e = (a, ap (λ t. ok a (record s { db = t })) e)
attempted s (err x db) e = (none, ap (λ t. ok none (record s { db = t })) e)

module _ {R : Type 0} (d : Driver) (tokens : TokenManager Moment (Server R)) (v : Validator)
    (sanitize : Text → Text) (bcrypt : Bcrypt) where
  abbrev cleaned : RegisterRequest → RegisterRequest
  cleaned req = clean_register (users {R = R} d) tokens v sanitize bcrypt req

  -- `Register` with an address that a row of `users` has (up to case), live or deleted, readable or
  -- not, is refused with `ErrDuplicateEmail` and changes nothing, if registration is open, the
  -- request is valid, the password can be hashed, the database answers, and its message for a
  -- broken unique key says so.
  pub register_taken :
      (m : Moment) (now : Time) (id : Uuid) (salt hash : Text) (req : RegisterRequest)
      (s : Server R)
      → validate_register v (cleaned req) ≡ none
      → bcrypt.generate salt (trim_space req.password) ≡ some hash
      → s.db.faults ≡ []
      → is_duplicate d.unique_violation ≡ true
      → any (same_email (to_lower (trim_space req.email))) s.db.users ≡ true
      → User.register (users d) tokens v sanitize bcrypt true m now id salt req s
        ≡ err Error.duplicate_email s
  unfolding User.register User.sign_up clean_register new_user
  register_taken m now id salt hash req s valid hashed answers names there =
      let (o, look) =
        attempted s (get_by_email d (to_lower (trim_space req.email)) s.db)
          (get_by_email-state d (to_lower (trim_space req.email)) s.db answers) in
      go o look
    where
      go :
          (o : Option User)
          → User.attempt ((users {R = R} d).get_by_email (to_lower (trim_space req.email))) s
            ≡ ok o s
          → User.register (users d) tokens v sanitize bcrypt true m now id salt req s
            ≡ err Error.duplicate_email s
      go (some x) look = rw valid (rw look refl)
      go none look = rw valid (
          rw look (
            rw hashed (
              rw
                (create_user-duplicate d (new_user now id hash (cleaned req)) s.db answers refl
                  there names)
                refl)))

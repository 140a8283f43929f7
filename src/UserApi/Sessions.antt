-- ===== src/UserApi/Sessions.antt =====
-- Accounts whose `last_password_hash` is NULL, as every registration leaves it, cannot be read
-- back: what that does to sessions.
use api_free_demo.Base.{
  ◌≡◌, refl, Bool, Option, none, some, List, [], ◌∷◌, Text, codes, All, All-append, Bool-cases, ◌⊎◌,
  inl, inr, ◌==◌,
}
use api_free_demo.Base.Outcome.{Error, Outcome, ok, err, M, state_of, resume, Returns, or_else}
use api_free_demo.Strings.{trim_space, to_lower}
use api_free_demo.Time.{Time}
use api_free_demo.Validation.{Validator}
use api_free_demo.User
use api_free_demo.User.{Uuid, User, Bcrypt, TokenManager}
use api_free_demo.Auth.{AuthConfig, Jwt, Backend}
use api_free_demo.Db.{
  Db, Driver, UserRow, scan, statement, meet, first, update_where, inserted_user, set_user,
  get_by_email, get_user, nil_or_user, user_or_not_found, read_row,
}
use api_free_demo.UserApi.{Server, Moment, Call, users, with_db, on_db, jwt_manager, perform_all}
use api_free_demo.UserApi.Keeps.{Stable, Keeps, check-Keeps, or_else-Keeps}
use api_free_demo.UserApi.Calls.{perform_all-keeps, extract_user_id-Keeps}

abbrev pub IsUnread : UserRow → Type 0
IsUnread row = row.last_password_hash ≡ none

edit-IsUnread :
    (d : Driver) (test : UserRow → Bool) (u : User) (rows : List UserRow)
    → All IsUnread rows
    → All IsUnread (update_where test (set_user d u) rows)
edit-IsUnread d test u [] h = tt
edit-IsUnread d test u (r ∷ rows) h = elim (Bool-cases (test r)) [
  | inl hit ↦ rw hit (h.0, edit-IsUnread d test u rows h.1)
  | inr miss ↦ rw miss (h.0, edit-IsUnread d test u rows h.1)
]

IsUnread-Stable : Stable (λ db. All IsUnread db.users)
IsUnread-Stable = record {
  with_faults = λ db rest h. h;
  with_user = λ d db u h fresh. All-append IsUnread db.users (inserted_user d u ∷ []) h (refl, tt);
  with_edit = λ d db u h. edit-IsUnread d (λ row. row.id == u.id) u db.users h;
}

-- No account is found: an error, or no row.
abbrev IsMissing : Option User → Type 0
IsMissing o = o ≡ none

first-IsUnread :
    (test : UserRow → Bool) (rows : List UserRow)
    → All IsUnread rows
    → (first test rows ≡ none) ⊎ ((row : UserRow) × (first test rows ≡ some row) × IsUnread row)
first-IsUnread test [] h = inl refl
first-IsUnread test (r ∷ rows) h = elim (Bool-cases (test r)) [
  | inl hit ↦ rw hit (inr (r, refl, h.0))
  | inr miss ↦ rw miss (first-IsUnread test rows h.1)
]

meet-IsMissing :
    (faults : List (Option Text)) (m : M Db (Option User)) (db : Db)
    → ((rest : List (Option Text)) → Returns IsMissing (m (record db { faults = rest })))
    → Returns IsMissing (m db)
    → Returns IsMissing (meet faults m db)
meet-IsMissing [] m db h k = k
meet-IsMissing (none ∷ rest) m db h k = h rest
meet-IsMissing (some e ∷ rest) m db h k = tt

read_row-IsMissing :
    (d : Driver) (row : UserRow) (db : Db) → IsUnread row → Returns IsMissing (read_row d row db)
unfolding scan
read_row-IsMissing d row db h = rw h tt

found-IsMissing :
    (d : Driver) (o : Option UserRow) (db : Db)
    → (o ≡ none) ⊎ ((row : UserRow) × (o ≡ some row) × IsUnread row)
    → Returns IsMissing (nil_or_user d o db) × Returns IsMissing (user_or_not_found d o db)
found-IsMissing d o db (inl e) = rw e (refl, tt)
found-IsMissing d o db (inr (row, e, h)) =
    rw e (read_row-IsMissing d row db h, read_row-IsMissing d row db h)

get_by_email-IsMissing :
    (d : Driver) (email : Text) (db : Db)
    → All IsUnread db.users
    → Returns IsMissing (get_by_email d email db)
unfolding get_by_email statement
get_by_email-IsMissing d email db h =
    meet-IsMissing db.faults _ db (λ rest. (found-IsMissing d _ _ (first-IsUnread _ db.users h)).0)
      (found-IsMissing d _ db (first-IsUnread _ db.users h)).0

get_user-IsMissing :
    (d : Driver) (id : Uuid) (db : Db)
    → All IsUnread db.users
    → Returns IsMissing (get_user d id db)
unfolding get_user statement
get_user-IsMissing d id db h =
    meet-IsMissing db.faults _ db (λ rest. (found-IsMissing d _ _ (first-IsUnread _ db.users h)).1)
      (found-IsMissing d _ db (first-IsUnread _ db.users h)).1

-- The call ends with an error.
abbrev pub Fails : {S A : Type 0} → Outcome S A → Type 0
Fails (ok a s) = ⊥
Fails (err e s) = Unit

-- From every state of the predicate the call fails.
record Refuses {S A : Type 0} (J : S → Type 0) (m : M S A) : Type 0 where
  pub refuses : (s : S) → J s → Fails (m s)

resume-Fails :
    {S A B : Type 0} (J : S → Type 0) (f : A → M S B) (o : Outcome S A)
    → J (state_of o)
    → ((a : A) → Refuses J (f a))
    → Fails (resume f o)
resume-Fails J f (ok a s) j h = (h a).refuses s j
resume-Fails J f (err e s) j h = tt

then-Refuses :
    {S A B : Type 0} {J : S → Type 0} {m : M S A} {f : A → M S B}
    → Keeps J m
    → ((a : A) → Refuses J (f a))
    → Refuses J (λ s. resume f (m s))
then-Refuses {J} {m} {f} k h = record { refuses = λ s j. resume-Fails J f (m s) (k.keeps s j) h }

missing-Fails :
    {R B : Type 0} (e : Error) (f : Option User → M (Server R) B) (s : Server R)
    (o : Outcome Db (Option User))
    → Returns IsMissing o
    → ((s' : Server R) → Fails (f none s'))
    → Fails (resume f (elim (with_db s o) [ ok a s' ↦ ok a s' | err _ s' ↦ err e s' ]))
missing-Fails e f s (ok a db) h k = rw h (k (record s { db = db }))
missing-Fails e f s (err x db) h k = tt

-- A call that goes on from an account fails where there is none.
missing-Refuses :
    {R B : Type 0} {J : Server R → Type 0} (m : M Db (Option User)) (e x : Error)
    (g : User → M (Server R) B)
    → ((s : Server R) → J s → Returns IsMissing (m s.db))
    → Refuses J (λ s. resume (λ o s'. resume g (User.or_nil x o s')) (or_else (on_db m) e s))
missing-Refuses m e x g h = record {
  refuses =
      λ s j. missing-Fails e (λ o s'. resume g (User.or_nil x o s')) s (m s.db) (h s j) λ s'. tt;
}

abbrev Unread : {R : Type 0} → Server R → Type 0
Unread s = All IsUnread s.db.users

module _ {R : Type 0} (d : Driver) (cfg : AuthConfig) (jwt : Jwt) (backend : Backend R)
    (v : Validator) (sanitize : Text → Text) (bcrypt : Bcrypt) where
  abbrev t : TokenManager Moment (Server R)
  t = jwt_manager cfg jwt backend

  login-Refuses :
      (m : Moment) (now : Time) (req : User.LoginRequest)
      → Refuses (Unread {R = R}) (User.login (users d) t v sanitize bcrypt m now req)
  unfolding User.login
  login-Refuses m now req =
      then-Refuses
        (check-Keeps
          (User.validate_login v (User.clean_login (users {R = R} d) t v sanitize bcrypt req)))
        λ _.
          missing-Refuses (get_by_email d (to_lower (trim_space req.email))) Error.invalid_creds
            Error.invalid_creds _ λ s. get_by_email-IsMissing d _ s.db

  refresh-Refuses :
      (m : Moment) (token : Text)
      → Refuses (Unread {R = R}) (User.refresh (users d) t v sanitize bcrypt m token)
  unfolding User.refresh
  refresh-Refuses m token =
      then-Refuses
        (or_else-Keeps Error.invalid_token
          (extract_user_id-Keeps IsUnread-Stable d cfg jwt backend v sanitize bcrypt m token))
        λ id.
          missing-Refuses (get_user d id) Error.invalid_token Error.invalid_token _
            λ s. get_user-IsMissing d id s.db

  update_me-Refuses :
      (now : Time) (id : Uuid) (req : User.UpdateUserRequest)
      → Refuses (Unread {R = R}) (User.update_me (users d) t v sanitize bcrypt now id req)
  unfolding User.update_me
  update_me-Refuses now id req = then-Refuses (check-Keeps (User.validate_update v req)) λ _.
      missing-Refuses (get_user d id) Error.user_not_found
        (Error.message (codes "nil pointer dereference")) _ λ s. get_user-IsMissing d id s.db

-- After any calls of the user service on a server whose table of users is empty at first, and
-- whatever registrations those calls made, a further `Login`, `Refresh` or `UpdateMe` fails: the
-- INSERT leaves `last_password_hash` NULL, and a NULL cannot be read into a Go string.
pub registered_users_locked_out :
    {R : Type 0} (d : Driver) (cfg : AuthConfig) (jwt : Jwt) (backend : Backend R) (v : Validator)
    (sanitize : Text → Text) (bcrypt : Bcrypt) (allow : Bool) (calls : List Call) (start : Server R)
    (m : Moment) (now : Time) (login_req : User.LoginRequest) (token : Text) (id : Uuid)
    (update_req : User.UpdateUserRequest)
    → start.db.users ≡ []
    → (s : Server R) × (s
        ≡ perform_all d (jwt_manager cfg jwt backend) v sanitize bcrypt allow calls start)
      × Fails
          (User.login (users d) (jwt_manager cfg jwt backend) v sanitize bcrypt m now login_req s)
      × Fails (User.refresh (users d) (jwt_manager cfg jwt backend) v sanitize bcrypt m token s)
      × Fails (
          User.update_me
            (users d)
            (jwt_manager cfg jwt backend)
            v
            sanitize
            bcrypt
            now
            id
            update_req
            s)
registered_users_locked_out d cfg jwt backend v sanitize bcrypt allow calls start m now login_req
      token id update_req empty =
    (
      _,
      refl,
      (login-Refuses d cfg jwt backend v sanitize bcrypt m now login_req).refuses _ unread,
      (refresh-Refuses d cfg jwt backend v sanitize bcrypt m token).refuses _ unread,
      (update_me-Refuses d cfg jwt backend v sanitize bcrypt now id update_req).refuses _ unread,
    )
  where
    unread :
        Unread (perform_all d (jwt_manager cfg jwt backend) v sanitize bcrypt allow calls start)
    unread =
        perform_all-keeps IsUnread-Stable d cfg jwt backend v sanitize bcrypt allow calls start
          (rw empty tt)

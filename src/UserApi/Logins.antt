-- ===== src/UserApi/Logins.antt =====
-- `Login` of an account whose row can be read, and the access token that it hands out.
mod Tests
use api_free_demo.Base.{
  ◌≡◌, refl, ◌∙◌, ap, ◌<◌, ◌/◌, true, ◌&&◌, not, Option, none, some, List, [], ◌∷◌, map, Bool,
  if◌then◌else◌, Text, fits_int4, ◌==◌,
}
use api_free_demo.Base.Outcome.{Error, ok, err, or_else}
use api_free_demo.Strings.{trim_space, to_lower}
use api_free_demo.Time.{Time, second}
use api_free_demo.Validation.{Validator}
use api_free_demo.User
use api_free_demo.User.{
  User, AuthTokens, LoginRequest, TokenManager, Bcrypt, AuthResponse, validate_login, clean_login,
  logged_in, open_session, respond,
}
use api_free_demo.Db.{
  Db, Driver, UserRow, scan, statement, statement_runs, same_email, get_by_email, update_user,
  set_user, update_where, first, is_null,
}
use api_free_demo.Auth.{
  Claims, AuthConfig, Jwt, Readings, memory, Tokens, access_claims, refresh_claims, issue_tokens,
  issue_access, issue_refresh, persist_refresh, put, bearer, parse_access_token, store, refresh_key,
}
use api_free_demo.Auth.Kinds.{JwtLaws, issued_access_authenticates}
use api_free_demo.UserApi.{Server, Moment, users, jwt_manager, with_db}

-- The library signs any claims under any key.
abbrev pub Signs : Jwt → Type 0
Signs jwt = (k : Text) (c : Claims) → (t : Text) × (jwt.sign k c ≡ some t)

module _ (cfg : AuthConfig) (jwt : Jwt) (signs : Signs jwt) (r : Readings) (u : User) where
  abbrev pub pair_for : AuthTokens
  pair_for =
      bearer cfg jwt {R = Unit {0}} memory (signs cfg.access_secret (access_claims cfg jwt r u)).0
        (signs cfg.refresh_secret (refresh_claims cfg jwt r u)).0 (cfg.access_token_ttl / second)

  abbrev kept_after : {R : Type 0} → Tokens R → Tokens R
  kept_after t = record t {
    memory_tokens =
        store (refresh_key (refresh_claims cfg jwt r u).id)
          (signs cfg.refresh_secret (refresh_claims cfg jwt r u)).0 t.memory_tokens;
  }

  -- The pair of tokens that the memory store is given
  issue_tokens_runs :
      {R : Type 0} (t : Tokens R) → issue_tokens cfg jwt memory r u t ≡ ok pair_for (kept_after t)
  unfolding issue_tokens issue_access issue_refresh persist_refresh put
  issue_tokens_runs t =
      rw
        (
          (signs cfg.access_secret (access_claims cfg jwt r u)).1,
          (signs cfg.refresh_secret (refresh_claims cfg jwt r u)).1,
        )
        refl

-- The row that the address finds
abbrev pub row_of : Text → Db → Option UserRow
row_of email db = first (λ row. same_email email row && is_null row.deleted_at) db.users

get_by_email-read :
    (d : Driver) (email : Text) (row : UserRow) (u : User) (db : Db)
    → db.faults ≡ []
    → row_of email db ≡ some row
    → scan row ≡ some u
    → get_by_email d email db ≡ ok (some u) db
unfolding get_by_email
get_by_email-read d email row u db answers found read =
    statement_runs _ db answers ∙ rw found (rw read refl)

-- The account after a login
abbrev pub session : Time → User → User
session now u = record u { last_login_at = some now; updated_at = now }

-- The users after a login of the account at the time: the rows with its identifier have the time
-- of the login as the columns keep it, and what else the account has; the other rows are as they
-- were.
abbrev pub stored : Driver → Time → User → Db → Db
stored d now u db = record db {
  users =
      map
        (λ (row : UserRow).
          if row.id == u.id
          then record row {
            name = u.name;
            profile_image = u.profile_image;
            password_hash = u.password_hash;
            refresh_version = u.refresh_version;
            updated_at = d.kept_time now;
            last_login_at = some (d.kept_time now);
          }
          else row)
        db.users;
}

update_where-map :
    (test : UserRow → Bool) (f : UserRow → UserRow) (rows : List UserRow)
    → update_where test f rows ≡ map (λ row. if test row then f row else row) rows
update_where-map test f [] = refl
update_where-map test f (row ∷ rows) =
    ap (λ xs. (if test row then f row else row) ∷ xs) (update_where-map test f rows)

update_user-stored :
    (d : Driver) (now : Time) (u : User) (db : Db)
    → db.faults ≡ []
    → fits_int4 u.refresh_version ≡ true
    → update_user d (session now u) db ≡ ok tt (stored d now u db)
unfolding update_user
update_user-stored d now u db answers fits =
    statement_runs _ db answers
    ∙ rw fits (
        ap (λ rows. ok tt (record db { users = rows }))
          (update_where-map (λ row. row.id == u.id) (set_user d (session now u)) db.users))

module _ {R : Type 0} (d : Driver) (cfg : AuthConfig) (jwt : Jwt) (laws : JwtLaws jwt)
    (signs : Signs jwt) (v : Validator) (sanitize : Text → Text) (bcrypt : Bcrypt) where
  abbrev t : TokenManager Moment (Server R)
  t = jwt_manager cfg jwt memory

  look :
      (req : LoginRequest) (s : Server R) (row : UserRow) (u : User)
      → s.db.faults ≡ []
      → row_of (to_lower (trim_space req.email)) s.db ≡ some row
      → scan row ≡ some u
      → or_else ((users d).get_by_email (to_lower (trim_space req.email))) Error.invalid_creds s
        ≡ ok (some u) s
  look req s row u answers found read =
      ap (λ o. or_else (λ s'. with_db s' o) Error.invalid_creds s)
        (get_by_email-read d (to_lower (trim_space req.email)) row u s.db answers found read)

  renew :
      (now : Time) (s : Server R) (u : User)
      → s.db.faults ≡ []
      → fits_int4 u.refresh_version ≡ true
      → User.ignore ((users d).update (session now u)) s
        ≡ ok tt (record s { db = stored d now u s.db })
  renew now s u answers fits =
      ap (λ o. User.ignore (λ s'. with_db s' o) s) (update_user-stored d now u s.db answers fits)

  login_runs :
      (m : Moment) (now : Time) (req : LoginRequest) (s : Server R) (row : UserRow) (u : User)
      → validate_login v (clean_login (users {R = R} d) t v sanitize bcrypt req) ≡ none
      → s.db.faults ≡ []
      → row_of (to_lower (trim_space req.email)) s.db ≡ some row
      → scan row ≡ some u
      → fits_int4 u.refresh_version ≡ true
      → bcrypt.compare u.password_hash (trim_space req.password) ≡ true
      → User.login (users d) t v sanitize bcrypt m now req s
        ≡ ok (respond (session now u) (pair_for cfg jwt signs m.1 (session now u))) (record s {
          db = stored d now u s.db;
          tokens = kept_after cfg jwt signs m.1 (session now u) s.tokens;
        })
  unfolding User.login open_session logged_in
  login_runs m now req s row u valid answers found read fits right = rw valid (
      rw (look req s row u answers found read) (
        rw right (
          rw (renew now s u answers fits)
            (rw (issue_tokens_runs cfg jwt signs m.1 (session now u) s.tokens) refl))))

  -- With tokens kept in memory and the documented laws of the JWT library, a valid `Login` whose
  -- address finds a live row that can be read, whose version fits its column and whose hash the
  -- password passes, succeeds if the library signs and the database answers. The rows with its
  -- identifier, and no others, have the time of the login, as the column keeps it, as their last
  -- login and last update, and the access token, until it expires, parses to the identifier and the role of the account.
  pub login_authenticates :
      (m : Moment) (now later : Time) (req : LoginRequest) (s : Server R) (row : UserRow) (u : User)
      → validate_login v (clean_login (users {R = R} d) t v sanitize bcrypt req) ≡ none
      → s.db.faults ≡ []
      → row_of (to_lower (trim_space req.email)) s.db ≡ some row
      → scan row ≡ some u
      → fits_int4 u.refresh_version ≡ true
      → bcrypt.compare u.password_hash (trim_space req.password) ≡ true
      → later < (access_claims cfg jwt m.1 u).expires_at
      → (a : AuthResponse) × (after : Server R) × (claims : Claims) × (User.login
            (users d)
            t
            v
            sanitize
            bcrypt
            m
            now
            req
            s
          ≡ ok a after)
        × (after.db ≡ stored d now u s.db)
        × (parse_access_token cfg jwt later a.tokens.access_token after ≡ ok claims after)
        × (claims.user_id ≡ u.id)
        × (claims.role ≡ u.role)
  unfolding access_claims
  login_authenticates m now later req s row u valid answers found read fits right early = (
    _,
    _,
    _,
    login_runs m now req s row u valid answers found read fits right,
    refl,
    issued_access_authenticates cfg jwt laws later m.1 (session now u) s.tokens _ _ _
        (issue_tokens_runs cfg jwt signs m.1 (session now u) s.tokens) early,
    refl,
    refl,
  )

-- ===== src/UserApi/Accounts.antt =====
-- The accounts in the table `users`: no two share an identifier or an address, whatever users do.
use api_free_demo.Base.{
  ℕ, ◌≡◌, refl, ◌∙◌, ap, Bool, true, false, ◌||◌, List, [], ◌∷◌, ◌++◌, Text, text_eq, any, ◌==◌,
  if◌then◌else◌, arith, Bool-cases, inl, inr,
}
use api_free_demo.Strings.{to_lower}
use api_free_demo.Validation.{Validator}
use api_free_demo.User.{Uuid, User, Bcrypt}
use api_free_demo.Auth.{AuthConfig, Jwt, Backend}
use api_free_demo.Profile.{Profile}
use api_free_demo.Db.{Driver, UserRow, clashes, same_email, inserted_user, set_user, update_where}
use api_free_demo.UserApi.{Server, Call, jwt_manager, perform_all}
use api_free_demo.UserApi.Keeps.{Stable}
use api_free_demo.UserApi.Calls.{perform_all-keeps}

-- Some row has the identifier, or the address up to the case of its letters.
abbrev pub taken : Uuid → Text → List UserRow → Bool
taken id email rows = any (λ row. row.id == id || same_email email row) rows

abbrev pub HasUniqueAccounts : List UserRow → Type 0
HasUniqueAccounts [] = Unit
HasUniqueAccounts (row ∷ rows) = (taken row.id row.email rows ≡ false) × HasUniqueAccounts rows

text_eq_sym : (s t : Text) → text_eq s t ≡ text_eq t s
unfolding text_eq
text_eq_sym [] [] = refl
text_eq_sym [] (b ∷ t) = refl
text_eq_sym (a ∷ s) [] = refl
text_eq_sym (a ∷ s) (b ∷ t) = ground (arith, text_eq_sym s t)

clash_sym : (i j : ℕ) (s t : Text) → ((i == j) || text_eq s t) ≡ ((j == i) || text_eq t s)
clash_sym i j s t = ground (arith, text_eq_sym s t)

or_false : (a b : Bool) → (if a then true else b) ≡ false → (a ≡ false) × (b ≡ false)
or_false a b h = ground arith

taken-append :
    (id : Uuid) (email : Text) (rows : List UserRow) (row : UserRow)
    → taken id email rows ≡ false
    → (row.id == id || same_email email row) ≡ false
    → taken id email (rows ++ row ∷ []) ≡ false
taken-append id email [] row h k = ground arith
taken-append id email (r ∷ rows) row h k = ground (arith, taken-append id email rows row)

unique-append :
    (rows : List UserRow) (row : UserRow)
    → HasUniqueAccounts rows
    → taken row.id row.email rows ≡ false
    → HasUniqueAccounts (rows ++ row ∷ [])
unique-append [] row h k = (refl, tt)
unique-append (r ∷ rows) row h k = (
  taken-append r.id r.email rows row h.0 (
      clash_sym row.id r.id (to_lower row.email) (to_lower r.email)
      ∙ (or_false (r.id == row.id || same_email row.email r) (taken row.id row.email rows) k).0),
  unique-append rows row h.1
      (or_false (r.id == row.id || same_email row.email r) (taken row.id row.email rows) k).1,
)

taken-update_where :
    (d : Driver) (id : Uuid) (email : Text) (test : UserRow → Bool) (u : User) (rows : List UserRow)
    → taken id email (update_where test (set_user d u) rows) ≡ taken id email rows
taken-update_where d id email test u [] = refl
taken-update_where d id email test u (r ∷ rows) =
    go (test r) (taken-update_where d id email test u rows)
  where
    go :
        (b : Bool)
        → taken id email (update_where test (set_user d u) rows) ≡ taken id email rows
        → taken id email ((if b then set_user d u r else r) ∷ update_where test (set_user d u) rows)
          ≡ taken id email (r ∷ rows)
    go true ih = ap (λ t. if r.id == id || same_email email r then true else t) ih
    go false ih = ap (λ t. if r.id == id || same_email email r then true else t) ih

unique-update_where :
    (d : Driver) (test : UserRow → Bool) (u : User) (rows : List UserRow)
    → HasUniqueAccounts rows
    → HasUniqueAccounts (update_where test (set_user d u) rows)
unique-update_where d test u [] h = tt
unique-update_where d test u (r ∷ rows) h = elim (Bool-cases (test r)) [
  | inl hit ↦
      rw hit
        (taken-update_where d r.id r.email test u rows ∙ h.0, unique-update_where d test u rows h.1)
  | inr miss ↦
      rw miss
        (taken-update_where d r.id r.email test u rows ∙ h.0, unique-update_where d test u rows h.1)
]

unique-Stable : Stable (λ db. HasUniqueAccounts db.users)
unfolding clashes
unique-Stable = record {
  with_faults = λ db rest h. h;
  with_user = λ d db u h fresh. unique-append db.users (inserted_user d u) h fresh;
  with_edit = λ d db u h. unique-update_where d (λ row. row.id == u.id) u db.users h;
}

pub same-Stable : (profiles : List Profile) → Stable (λ db. db.profiles ≡ profiles)
same-Stable profiles = record {
  with_faults = λ db rest h. h;
  with_user = λ d db u h fresh. h;
  with_edit = λ d db u h. h;
}

-- Whatever calls of the user service run, in any order and with any faults of the database, on a
-- server where no two rows of `users` share an identifier or an address (up to the case of its
-- letters), no two rows do afterwards, and the table of profiles is as before.
pub perform_all_keeps_accounts :
    {R : Type 0} (d : Driver) (cfg : AuthConfig) (jwt : Jwt) (backend : Backend R) (v : Validator)
    (sanitize : Text → Text) (bcrypt : Bcrypt) (allow : Bool) (calls : List Call) (s : Server R)
    → HasUniqueAccounts s.db.users
    → (after : Server R) × (after
        ≡ perform_all d (jwt_manager cfg jwt backend) v sanitize bcrypt allow calls s)
      × HasUniqueAccounts after.db.users
      × (after.db.profiles ≡ s.db.profiles)
perform_all_keeps_accounts d cfg jwt backend v sanitize bcrypt allow calls s h = (
  _,
  refl,
  perform_all-keeps unique-Stable d cfg jwt backend v sanitize bcrypt allow calls s h,
  perform_all-keeps (same-Stable s.db.profiles) d cfg jwt backend v sanitize bcrypt allow calls s
      refl,
)

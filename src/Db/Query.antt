-- ===== src/Db/Query.antt =====
-- Listing queries: LIKE, ORDER BY, LIMIT and OFFSET, and the `List` methods of the two
-- repositories.
use api_free_demo.Base.{
  ℕ, Bool, true, false, ◌&&◌, ◌||◌, Option, none, some, List, [], ◌∷◌, ◌++◌, Text, codes, filter,
  take, drop, length, ltb, ◌==◌, if◌then◌else◌,
}
use api_free_demo.Base.Outcome.{Error, ok, err, M, ◌>>=◌}
use api_free_demo.Strings.{to_lower, contains}
use api_free_demo.Time.{Time}
use api_free_demo.Validation.{non_empty}
use api_free_demo.User.{User, UserFilter}
use api_free_demo.Profile.{Profile, Filter}
use api_free_demo.Db.Tables.{Db, Driver, UserRow, scan, statement, is_null}

-- Some end of the text passes.
unfoldable pub any_suffix : (Text → Bool) → Text → Bool
any_suffix test [] = test []
any_suffix test (c ∷ s) = test (c ∷ s) || any_suffix test s

-- The first character passes, and the rest of the text.
abbrev pub next_is : (ℕ → Bool) → (Text → Bool) → Text → Bool
next_is one rest [] = false
next_is one rest (c ∷ s) = one c && rest s

abbrev pub at_end : Text → Bool
at_end [] = true
at_end (_ ∷ _) = false

-- `text LIKE pattern`: `%` stands for any text, `_` for any character, and `\` takes the next
-- character as it is.
unfoldable pub like : Text → Text → Bool
unfolding any_suffix
like [] = at_end
like (p ∷ []) =
    if p == b'%'
    then (λ s. true)
    else if p == b'_'
    then next_is (λ c. true) at_end
    else next_is (λ c. c == p) at_end
like (p ∷ q ∷ ps) =
    if p == b'%'
    then any_suffix (like (q ∷ ps))
    else if p == b'_'
    then next_is (λ c. true) (like (q ∷ ps))
    else if p == b'\\'
    then next_is (λ c. c == q) (like ps)
    else next_is (λ c. c == p) (like (q ∷ ps))

-- `LOWER(column) LIKE LOWER('%' + search + '%')`
unfoldable pub matches : Text → Text → Bool
unfolding like
matches search column = like (to_lower (codes "%" ++ search ++ codes "%")) (to_lower column)

-- Stable insertion into rows sorted by a test "comes strictly before"
unfoldable pub insert_sorted : {A : Type 0} → (A → A → Bool) → A → List A → List A
insert_sorted before x [] = x ∷ []
insert_sorted before x (y ∷ ys) = if before y x then y ∷ insert_sorted before x ys else x ∷ y ∷ ys

-- `ORDER BY`
unfoldable pub order_by : {A : Type 0} → (A → A → Bool) → List A → List A
unfolding insert_sorted
order_by before [] = []
order_by before (x ∷ xs) = insert_sorted before x (order_by before xs)

-- `ORDER BY … LIMIT ? OFFSET ?`
abbrev pub page : {A : Type 0} → (A → A → Bool) → ℕ → ℕ → List A → List A
page before limit offset rows = take limit (drop offset (order_by before rows))

-- `created_at DESC`
abbrev pub newer : Profile → Profile → Bool
newer a b = ltb b.created_at a.created_at

abbrev pub before_cursor : Option Time → Profile → Bool
before_cursor none row = true
before_cursor (some t) row = ltb row.created_at t

-- The WHERE clause that `ProfileRepository.List` builds
unfoldable pub selected : Filter → Profile → Bool
selected f row =
    row.user_id == f.user_id
    && is_null row.deleted_at
    && (if non_empty f.search
        then matches f.search row.first_name || matches f.search row.last_name
        else true)
    && before_cursor f.cursor_time row

-- `ProfileRepository.List`: the page, and the number of all rows that the filter selects
unfoldable pub list_profiles : Filter → M Db (List Profile × ℕ)
unfolding selected order_by
list_profiles f = do
  rows ← statement λ db. ok (page newer f.limit f.offset (filter (selected f) db.profiles)) db
  total ← statement λ db. ok (length (filter (selected f) db.profiles)) db
  λ db. ok (rows, total) db

-- The order of two texts by their code points
unfoldable pub text_lt : Text → Text → Bool
text_lt [] [] = false
text_lt [] (_ ∷ _) = true
text_lt (_ ∷ _) [] = false
text_lt (a ∷ s) (b ∷ t) = ltb a b || (a == b && text_lt s t)

-- `created_at DESC`, or `name ASC` where the sort key mentions the name
unfoldable pub user_order : Text → UserRow → UserRow → Bool
unfolding text_lt
user_order sort a b =
    if contains sort (codes "name") then text_lt a.name b.name else ltb b.created_at a.created_at

-- The WHERE clause that `UserRepository.List` builds
unfoldable pub selected_user : UserFilter → UserRow → Bool
selected_user f row =
    is_null row.deleted_at
    && (if non_empty f.search
        then matches f.search row.email || matches f.search row.name
        else true)

abbrev pub with_row : Option User → Option (List User) → Option (List User)
with_row none users = none
with_row (some u) none = none
with_row (some u) (some users) = some (u ∷ users)

-- `SelectContext`: one row that cannot be read fails the call.
unfoldable pub scan_all : List UserRow → Option (List User)
scan_all [] = some []
scan_all (r ∷ rows) = with_row (scan r) (scan_all rows)

abbrev pub or_null_scan : {A : Type 0} → Driver → Option A → M Db A
or_null_scan d none db = err (Error.message d.null_scan) db
or_null_scan d (some a) db = ok a db

-- `UserRepository.List`
unfoldable pub list_users : Driver → UserFilter → M Db (List User × ℕ)
unfolding selected_user order_by user_order scan_all
list_users d f = do
  rows ← statement λ db.
      or_null_scan d
        (scan_all (page (user_order f.sort) f.limit f.offset (filter (selected_user f) db.users)))
        db
  total ← statement λ db. ok (length (filter (selected_user f) db.users)) db
  λ db. ok (rows, total) db

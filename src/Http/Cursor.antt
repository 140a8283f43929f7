-- ===== src/Http/Cursor.antt =====
-- The cursor that a listing hands out.
use api_free_demo.Base.{
  ◌≡◌, ◌<◌, ◌*◌, ◌/◌, refl, ap, ◌∙◌, true, Option, none, some, List, [], ◌∷◌, ◌++◌, Text, arith,
}
use api_free_demo.Time.{Time, second}
use api_free_demo.Time.Rfc3339.{format_rfc3339, parse_rfc3339, four_digits, two_digits}
use api_free_demo.Time.RoundTrip.{date_limit, parse-format}
use api_free_demo.Profile.{Uuid, Profile, Filter}
use api_free_demo.Db.{selected, before_cursor}
use api_free_demo.Http.ProfileHandler.{Query, filter_of, next_cursor, cursor_time_of}

next_cursor-last :
    (rows : List Profile) (p : Profile) → next_cursor (rows ++ p ∷ []) ≡ format_rfc3339 p.created_at
unfolding next_cursor
next_cursor-last [] p = refl
next_cursor-last (r ∷ []) p = refl
next_cursor-last (r ∷ r' ∷ rows) p = next_cursor-last (r' ∷ rows) p

cursor_time_of-parse : (s : Text) → cursor_time_of s ≡ parse_rfc3339 s
unfolding parse_rfc3339 four_digits two_digits
cursor_time_of-parse [] = refl
cursor_time_of-parse (c ∷ s) = refl

selected-before_cursor :
    (f : Filter) (row : Profile) → selected f row ≡ true → before_cursor f.cursor_time row ≡ true
unfolding selected
selected-before_cursor f row h = ground (arith, h)

older :
    (o : Option Time) (t : Time) (row : Profile)
    → o ≡ some t
    → before_cursor o row ≡ true
    → row.created_at < t
older none t row e h = cc
older (some t') t row e h = ground (arith, e, h)

-- The cursor of a page whose last row was created before the year 10000 comes back as the time
-- of that row without the fraction of its second, and the query with that cursor selects only
-- rows that were created before this whole second: none that was created within the second of the
-- last row.
pub next_page_skips_second :
    (u : Uuid) (q : Query) (rows : List Profile) (p : Profile)
    → p.created_at < date_limit
    → q.cursor ≡ next_cursor (rows ++ p ∷ [])
    → ((filter_of u q).cursor_time ≡ some (p.created_at / second * second))
      × ((row : Profile)
          → selected (filter_of u q) row ≡ true
          → row.created_at < p.created_at / second * second)
unfolding filter_of
next_page_skips_second u q rows p early e =
    (cut, λ row h. older _ _ row cut (selected-before_cursor (filter_of u q) row h))
  where
    cut : cursor_time_of q.cursor ≡ some (p.created_at / second * second)
    cut =
        cursor_time_of-parse q.cursor
        ∙ ap parse_rfc3339 (e ∙ next_cursor-last rows p)
        ∙ parse-format p.created_at early

-- ===== src/Http/ProfileHandler.antt =====
-- internal/domain/profile/handler.go, over any repository. What gin has bound of a body is an
-- argument, and so are the texts of the parameters (the empty text where there is none).
use api_free_demo.Base.{ℕ, ◌⊎◌, Option, none, some, List, [], ◌∷◌, ◌++◌, Text, codes, text_eq}
use api_free_demo.Base.Outcome.{Error}
use api_free_demo.Time.{Time}
use api_free_demo.Time.Rfc3339.{format_rfc3339, parse_rfc3339}
use api_free_demo.Validation.{Validator}
use api_free_demo.Profile
use api_free_demo.Profile.{
  Uuid, Profile, Repository, Policy, CreateRequest, UpdateRequest, PatchRequest, BulkCreateRequest,
  BulkDeleteRequest, Filter,
}
use api_free_demo.Http.Reply.{not_found, profile_error, serialize_errors}
use api_free_demo.Http.Query.{get_limit, get_offset, parse_version}
use api_free_demo.Http.Guards.{Context, must_user_id}
use api_free_demo.Http.Answer.{
  Payload, Answer, problem, success, bare, Handle, bound, with_user, answered,
}

-- `uuid.Parse` and `uuid.UUID.String`
pub record Uuids : Type 0 where
  pub parse : Text → Option Uuid
  pub text : Uuid → Text

-- What a request reads of the clock and of fresh identifiers, in order
pub record Sources : Type 0 where
  pub now : ℕ → Time
  pub new_id : ℕ → Uuid

-- The parameters of a query
pub record Query : Type 0 where
  pub search : Text
  pub limit : Text
  pub offset : Text
  pub cursor : Text
  pub hard : Text
  pub version : Text
  pub sort : Option Text

-- What follows `uuid.Parse(c.Param("id"))`
abbrev pub with_id : {S : Type 0} → Option Uuid → (Uuid → Handle S) → Handle S
with_id none k s = (problem (not_found (codes "profile")), s)
with_id (some id) k s = k id s

abbrev pub cursor_time_of : Text → Option Time
cursor_time_of [] = none
cursor_time_of (c ∷ s) = parse_rfc3339 (c ∷ s)

-- The `Filter` of `list`
unfoldable pub filter_of : Uuid → Query → Filter
filter_of user_id q = record {
  search = q.search;
  limit = get_limit 20 100 q.limit;
  offset = get_offset q.offset;
  cursor = q.cursor;
  cursor_time = cursor_time_of q.cursor;
  user_id = user_id;
}

-- The creation time of the last profile
unfoldable pub next_cursor : List Profile → Text
next_cursor [] = []
next_cursor (p ∷ []) = format_rfc3339 p.created_at
next_cursor (p ∷ q ∷ rest) = next_cursor (q ∷ rest)

abbrev pub shown : Profile → Answer
shown p = success 200 none (Payload.profile p)

-- The pair that `BulkCreate` returns, as the answer 207
abbrev pub reported :
    {S : Type 0} → (Error → Text) → (List Profile × List (Option Error)) × S → Answer × S
reported message_of ((created, errs), s) =
    (success 207 none (Payload.report created (serialize_errors message_of errs)), s)

module _ {S : Type 0} (repo : Repository S) (v : Validator) (policy : Policy) (uuids : Uuids)
    (message_of : Error → Text) where
  -- `create`
  unfoldable pub create : Sources → Context → CreateRequest ⊎ Error → Handle S
  create r c body = bound body λ req. with_user (must_user_id c) λ user_id s.
      answered profile_error
        (λ profile.
          success 201 (some (codes "/api/v1/profiles/" ++ uuids.text profile.id))
            (Payload.profile profile))
        (Profile.create repo v policy (r.now 0) (r.new_id 0) user_id req s)

  -- `bulkCreate`
  unfoldable pub bulk_create : Sources → Context → BulkCreateRequest ⊎ Error → Handle S
  bulk_create r c body = bound body λ req. with_user (must_user_id c) λ user_id s.
      reported message_of (Profile.bulk_create repo v policy r.now r.new_id user_id req s)

  -- `get`
  unfoldable pub get : Context → Text → Handle S
  get c param = with_user (must_user_id c) λ user_id.
      with_id (uuids.parse param)
        λ id s. answered profile_error shown (Profile.get repo v policy id user_id s)

  -- `list`
  unfoldable pub list : Context → Query → Handle S
  unfolding filter_of
  list c q = with_user (must_user_id c) λ user_id s.
      answered profile_error
        (λ (found : List Profile × ℕ). success 200 none (
          Payload.listing found.0 found.1 (filter_of user_id q).offset (filter_of user_id q).limit
            (next_cursor found.0)))
        (Profile.list repo v policy (filter_of user_id q) s)

  -- `update`
  unfoldable pub update : Sources → Context → Text → UpdateRequest ⊎ Error → Handle S
  update r c param body = bound body λ req. with_user (must_user_id c) λ user_id.
      with_id (uuids.parse param) λ id s.
        answered profile_error shown (Profile.update repo v policy (r.now 0) id user_id req s)

  -- `patch`
  unfoldable pub patch : Sources → Context → Text → PatchRequest ⊎ Error → Handle S
  patch r c param body = bound body λ req. with_user (must_user_id c) λ user_id.
      with_id (uuids.parse param) λ id s.
        answered profile_error shown (Profile.patch repo v policy (r.now 0) id user_id req s)

  -- `delete`
  unfoldable pub delete : Sources → Context → Text → Query → Handle S
  delete r c param q = with_user (must_user_id c) λ user_id. with_id (uuids.parse param) λ id s.
      answered profile_error (λ done. bare 204)
        (Profile.delete repo v policy (r.now 0) id user_id (text_eq q.hard (codes "true"))
          (parse_version q.version) s)

  -- `bulkDelete`
  unfoldable pub bulk_delete : Sources → Context → BulkDeleteRequest ⊎ Error → Handle S
  bulk_delete r c body = bound body λ req. with_user (must_user_id c) λ user_id s.
      answered profile_error (λ deleted. success 200 none (Payload.deleted deleted))
        (Profile.bulk_delete repo v policy (r.now 0) user_id req s)

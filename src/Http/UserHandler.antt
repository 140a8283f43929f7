-- ===== src/Http/UserHandler.antt =====
-- internal/domain/user/handler.go, over any repository and any token manager.
use api_free_demo.Base.{ℕ, Bool, ◌⊎◌, Option, none, some, List, Text, codes}
use api_free_demo.Base.Outcome.{Error}
use api_free_demo.Time.{Time}
use api_free_demo.Validation.{Validator}
use api_free_demo.User
use api_free_demo.User.{
  Uuid, User, Repository, TokenManager, Bcrypt, RegisterRequest, LoginRequest, UpdateUserRequest,
  UserFilter, AuthResponse,
}
use api_free_demo.Http.Reply.{unauthorized, user_error}
use api_free_demo.Http.Query.{get_limit, get_offset}
use api_free_demo.Http.Guards.{Context}
use api_free_demo.Http.Answer.{Payload, Answer, problem, success, Handle, bound, answered}
use api_free_demo.Http.ProfileHandler.{Query}

-- What follows `c.Get("user_id")`
abbrev pub with_claimed : {S : Type 0} → Option Uuid → (Uuid → Handle S) → Handle S
with_claimed none k s = (problem (unauthorized (codes "missing auth context")), s)
with_claimed (some id) k s = k id s

-- `c.DefaultQuery("sort", "created_at_desc")`
abbrev pub sort_of : Option Text → Text
sort_of none = codes "created_at_desc"
sort_of (some sort) = sort

-- The `UserFilter` of `listUsers`; the tenant is `uuid.Nil`.
unfoldable pub user_filter_of : Query → UserFilter
user_filter_of q = record {
  search = q.search;
  limit = get_limit 50 200 q.limit;
  offset = get_offset q.offset;
  sort = sort_of q.sort;
  tenant_id = 0;
}

abbrev pub opened : AuthResponse → Answer
opened res = success 200 none (Payload.session res)

module _ {Moment S : Type 0} (repo : Repository S) (tokens : TokenManager Moment S) (v : Validator)
    (sanitize : Text → Text) (bcrypt : Bcrypt) (allow_signup : Bool) where
  -- `register`
  unfoldable pub register : Moment → Time → Uuid → Text → RegisterRequest ⊎ Error → Handle S
  register m now id salt body = bound body λ req s.
      answered user_error
        (λ res. success 201 (some (codes "/api/v1/users/me")) (Payload.session res))
        (User.register repo tokens v sanitize bcrypt allow_signup m now id salt req s)

  -- `login`
  unfoldable pub login : Moment → Time → LoginRequest ⊎ Error → Handle S
  login m now body =
      bound body
        λ req s. answered user_error opened (User.login repo tokens v sanitize bcrypt m now req s)

  -- `refresh`; the body is its `refresh_token`.
  unfoldable pub refresh : Moment → Text ⊎ Error → Handle S
  refresh m body =
      bound body
        λ token s. answered user_error opened (User.refresh repo tokens v sanitize bcrypt m token s)

  -- `getMe`
  unfoldable pub get_me : Context → Handle S
  get_me c = with_claimed c.user_id λ id s.
      answered user_error (λ usr. success 200 none (Payload.user usr))
        (User.get_me repo tokens v sanitize bcrypt id s)

  -- `updateMe`
  unfoldable pub update_me : Time → Context → UpdateUserRequest ⊎ Error → Handle S
  update_me now c body = bound body λ req. with_claimed c.user_id λ id s.
      answered user_error (λ usr. success 200 none (Payload.user (some usr)))
        (User.update_me repo tokens v sanitize bcrypt now id req s)

  -- `listUsers`, with the envelope of `Paginated`
  unfoldable pub list_users : Query → Handle S
  unfolding user_filter_of
  list_users q s =
      answered user_error
        (λ (found : List User × ℕ).
          success 200 none
            (Payload.users found.0 found.1 (user_filter_of q).offset (user_filter_of q).limit))
        (User.list repo tokens v sanitize bcrypt (user_filter_of q) s)

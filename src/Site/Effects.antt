-- ===== src/Site/Effects.antt =====
-- What the handlers behind the routes do to the rows of `profiles`.
use api_free_demo.Base.{◌≡◌, ◌≢◌, refl, ap, ◌⊎◌, some, List, Text}
use api_free_demo.Base.Outcome.{Error}
use api_free_demo.User.{Uuid, RegisterRequest, LoginRequest, UpdateUserRequest}
use api_free_demo.Db.{Db}
use api_free_demo.Db.Rules.{Acts}
use api_free_demo.Db.Steps.{Steps-others}
use api_free_demo.ProfileApi.Isolation.{rows_of, rows_of-eq}
use api_free_demo.UserApi
use api_free_demo.UserApi.{Server}
use api_free_demo.UserApi.Accounts.{same-Stable}
use api_free_demo.UserApi.Calls.{perform-keeps}
use api_free_demo.Http.{Context}
use api_free_demo.Http.Effects.{
  bound-leads, with_claimed-leads, answered-leads, create-Acts, bulk_create-Acts, list-Acts,
  get-Acts, update-Acts, patch-Acts, delete-Acts, bulk_delete-Acts,
}
use api_free_demo.Http.ProfileHandler.{Query}
use api_free_demo.Http.UserHandler
use api_free_demo.Site
use api_free_demo.Site.{
  App, Site, Reads, Endpoint, access_of, user, dispatch, health, metrics, debug_logs, get_me,
  register, login, refresh, update_me, list_users, create, bulk_create, list, get, update, patch,
  delete, bulk_delete,
}

-- Steps of one user leave the rows of the others.
pub Acts-rows_of :
    {u w : Uuid} {before after : Db}
    → u ≢ w
    → Acts u before after
    → rows_of w after.profiles ≡ rows_of w before.profiles
Acts-rows_of {u} {w} {before} {after} h acts =
    rows_of-eq u w before.profiles after.profiles h (Steps-others u acts.steps)

module _ {F R L : Type 0} (a : App F R L) (r : Reads) (c : Context) (lines : List Text)
    (s : Server R) where
  -- The user service leaves `profiles` as it is.
  abbrev Same : Server R → Type 0
  Same after = after.db.profiles ≡ s.db.profiles

  performed :
      (call : UserApi.Call)
      → Same (
          UserApi.perform a.driver
            (Site.tokens a)
            a.validator
            a.sanitize
            a.bcrypt
            a.allow_signup
            call
            s)
  performed call =
      perform-keeps (same-Stable s.db.profiles) a.driver a.auth a.jwt a.backend a.validator
        a.sanitize a.bcrypt a.allow_signup call s refl

  -- No handler of accounts changes a profile.
  register-Same : (body : RegisterRequest ⊎ Error) → Same (dispatch a r c lines (register body) s).1
  unfolding dispatch UserHandler.register UserApi.perform
  register-Same body = bound-leads Same s body _ refl λ req.
      answered-leads Same _ _ _
        (performed (UserApi.Call.register r.moment r.user_now r.user_id r.salt req))

  login-Same : (body : LoginRequest ⊎ Error) → Same (dispatch a r c lines (login body) s).1
  unfolding dispatch UserHandler.login UserApi.perform
  login-Same body =
      bound-leads Same s body _ refl
        λ req. answered-leads Same _ _ _ (performed (UserApi.Call.login r.moment r.user_now req))

  refresh-Same : (body : Text ⊎ Error) → Same (dispatch a r c lines (refresh body) s).1
  unfolding dispatch UserHandler.refresh UserApi.perform
  refresh-Same body =
      bound-leads Same s body _ refl
        λ token. answered-leads Same _ _ _ (performed (UserApi.Call.refresh r.moment token))

  get_me-Same : Same (dispatch a r c lines get_me s).1
  unfolding dispatch UserHandler.get_me UserApi.perform
  get_me-Same =
      with_claimed-leads Same s c.user_id _ refl
        λ id. answered-leads Same _ _ _ (performed (UserApi.Call.get_me id))

  update_me-Same :
      (body : UpdateUserRequest ⊎ Error) → Same (dispatch a r c lines (update_me body) s).1
  unfolding dispatch UserHandler.update_me UserApi.perform
  update_me-Same body = bound-leads Same s body _ refl λ req.
      with_claimed-leads Same s c.user_id _ refl
        λ id. answered-leads Same _ _ _ (performed (UserApi.Call.update_me r.user_now id req))

  list_users-Same : (q : Query) → Same (dispatch a r c lines (list_users q) s).1
  unfolding dispatch UserHandler.list_users UserApi.perform
  list_users-Same q =
      answered-leads Same _ _ _ (performed (UserApi.Call.list (UserHandler.user_filter_of q)))

  -- A handler leaves the rows of every user but the caller; a caller matters only to the routes
  -- that want one.
  pub dispatch-isolates :
      (w : Uuid) (e : Endpoint)
      → (access_of e ≡ user → (u : Uuid) × (c.user_id ≡ some u) × (u ≢ w))
      → rows_of w (dispatch a r c lines e s).1.db.profiles ≡ rows_of w s.db.profiles
  unfolding dispatch access_of
  dispatch-isolates w health h = refl
  dispatch-isolates w metrics h = refl
  dispatch-isolates w debug_logs h = refl
  dispatch-isolates w get_me h = ap (rows_of w) get_me-Same
  dispatch-isolates w (register body) h = ap (rows_of w) (register-Same body)
  dispatch-isolates w (login body) h = ap (rows_of w) (login-Same body)
  dispatch-isolates w (refresh body) h = ap (rows_of w) (refresh-Same body)
  dispatch-isolates w (update_me body) h = ap (rows_of w) (update_me-Same body)
  dispatch-isolates w (list_users q) h = ap (rows_of w) (list_users-Same q)
  dispatch-isolates w (create body) h =
      let (u, caller, other) = h refl in
      Acts-rows_of other (
        create-Acts a.driver a.validator a.policy a.uuids a.message_of c u caller s.db r.sources
          body)
  dispatch-isolates w (bulk_create body) h =
      let (u, caller, other) = h refl in
      Acts-rows_of other (
        bulk_create-Acts a.driver a.validator a.policy a.uuids a.message_of c u caller s.db
          r.sources body)
  dispatch-isolates w (list q) h =
      let (u, caller, other) = h refl in
      Acts-rows_of other
        (list-Acts a.driver a.validator a.policy a.uuids a.message_of c u caller s.db q)
  dispatch-isolates w (get id) h =
      let (u, caller, other) = h refl in
      Acts-rows_of other
        (get-Acts a.driver a.validator a.policy a.uuids a.message_of c u caller s.db id)
  dispatch-isolates w (update id body) h =
      let (u, caller, other) = h refl in
      Acts-rows_of other (
        update-Acts a.driver a.validator a.policy a.uuids a.message_of c u caller s.db r.sources id
          body)
  dispatch-isolates w (patch id body) h =
      let (u, caller, other) = h refl in
      Acts-rows_of other (
        patch-Acts a.driver a.validator a.policy a.uuids a.message_of c u caller s.db r.sources id
          body)
  dispatch-isolates w (delete id q) h =
      let (u, caller, other) = h refl in
      Acts-rows_of other (
        delete-Acts a.driver a.validator a.policy a.uuids a.message_of c u caller s.db r.sources id
          q)
  dispatch-isolates w (bulk_delete body) h =
      let (u, caller, other) = h refl in
      Acts-rows_of other (
        bulk_delete-Acts a.driver a.validator a.policy a.uuids a.message_of c u caller s.db
          r.sources body)

-- ===== src/Site/Dispatch.antt =====
-- The handlers behind the routes, on the state of the server.
use api_free_demo.Base.{none, List, Text}
use api_free_demo.User.{TokenManager}
use api_free_demo.Db.{Db, profile_repository}
use api_free_demo.UserApi.{Server, Moment, users, jwt_manager}
use api_free_demo.Http.{Context}
use api_free_demo.Http.Answer.{Payload, success, Handle}
use api_free_demo.Http.ProfileHandler
use api_free_demo.Http.UserHandler
use api_free_demo.Site.Routes.{
  Endpoint, health, metrics, debug_logs, get_me, register, login, refresh, update_me, list_users,
  create, bulk_create, list, get, update, patch, delete, bulk_delete,
}
use api_free_demo.Site.Model.{Reads, App}

abbrev pub on_tables : {R : Type 0} → Handle Db → Handle (Server R)
on_tables h s = ((h s.db).0, record s { db = (h s.db).1 })

module _ {F R L : Type 0} (a : App F R L) where
  abbrev pub tokens : TokenManager Moment (Server R)
  tokens = jwt_manager a.auth a.jwt a.backend

  -- The handler of a route, given the lines that the log buffer shows
  unfoldable pub dispatch : Reads → Context → List Text → Endpoint → Handle (Server R)
  dispatch r c lines health s = (success 200 none Payload.health, s)
  dispatch r c lines metrics s = (success 200 none Payload.metrics, s)
  dispatch r c lines debug_logs s = (success 200 none (Payload.logs lines), s)
  dispatch r c lines (register body) s =
      UserHandler.register (users a.driver) tokens a.validator a.sanitize a.bcrypt a.allow_signup
        r.moment r.user_now r.user_id r.salt body s
  dispatch r c lines (login body) s =
      UserHandler.login (users a.driver) tokens a.validator a.sanitize a.bcrypt a.allow_signup
        r.moment r.user_now body s
  dispatch r c lines (refresh body) s =
      UserHandler.refresh (users a.driver) tokens a.validator a.sanitize a.bcrypt a.allow_signup
        r.moment body s
  dispatch r c lines get_me s =
      UserHandler.get_me (users a.driver) tokens a.validator a.sanitize a.bcrypt a.allow_signup c s
  dispatch r c lines (update_me body) s =
      UserHandler.update_me (users a.driver) tokens a.validator a.sanitize a.bcrypt a.allow_signup
        r.user_now c body s
  dispatch r c lines (list_users q) s =
      UserHandler.list_users (users a.driver) tokens a.validator a.sanitize a.bcrypt a.allow_signup
        q s
  dispatch r c lines (create body) s =
      on_tables
        (ProfileHandler.create (profile_repository a.driver) a.validator a.policy a.uuids
          a.message_of r.sources c body)
        s
  dispatch r c lines (bulk_create body) s =
      on_tables
        (ProfileHandler.bulk_create (profile_repository a.driver) a.validator a.policy a.uuids
          a.message_of r.sources c body)
        s
  dispatch r c lines (list q) s =
      on_tables
        (ProfileHandler.list (profile_repository a.driver) a.validator a.policy a.uuids a.message_of
          c q)
        s
  dispatch r c lines (get id) s =
      on_tables
        (ProfileHandler.get (profile_repository a.driver) a.validator a.policy a.uuids a.message_of
          c id)
        s
  dispatch r c lines (update id body) s =
      on_tables
        (ProfileHandler.update (profile_repository a.driver) a.validator a.policy a.uuids
          a.message_of r.sources c id body)
        s
  dispatch r c lines (patch id body) s =
      on_tables
        (ProfileHandler.patch (profile_repository a.driver) a.validator a.policy a.uuids
          a.message_of r.sources c id body)
        s
  dispatch r c lines (delete id q) s =
      on_tables
        (ProfileHandler.delete (profile_repository a.driver) a.validator a.policy a.uuids
          a.message_of r.sources c id q)
        s
  dispatch r c lines (bulk_delete body) s =
      on_tables
        (ProfileHandler.bulk_delete (profile_repository a.driver) a.validator a.policy a.uuids
          a.message_of r.sources c body)
        s

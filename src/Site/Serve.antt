-- ===== src/Site/Serve.antt =====
-- A request on its way: the middleware in the order of `NewRouter`, the guards of its route, its
-- handler, and the log.
use api_free_demo.Base.{
  Bool, true, false, Option, none, some, List, [], ◌∷◌, Text, codes, if◌then◌else◌,
}
use api_free_demo.Time.{Time}
use api_free_demo.Auth.{AuthConfig, Jwt}
use api_free_demo.UserApi.{Server}
use api_free_demo.Config.{Config}
use api_free_demo.Diagnostics.{snapshot}
use api_free_demo.Http.{
  Context, Passage, next, stop, Allow, then_guard, auth_middleware, optional_auth, admin_only,
  rate_limit,
}
use api_free_demo.Http.Answer.{Answer, problem, bare, status_of, Handle}
use api_free_demo.Http.Middleware.{
  Headers, request_id, cors_headers, is_preflight, Line, path_of, log_request,
}
use api_free_demo.Site.Routes.{Endpoint, full_path, Access, access_of, anyone, user, admin}
use api_free_demo.Site.Model.{Request, Reads, App, Site, Response}
use api_free_demo.Site.Dispatch.{dispatch}

-- The context before any middleware
abbrev pub anonymous : Context
anonymous = record { user_id = none; user_role = none }

abbrev pub timed : {L : Type 0} → Time → Option (Time → Allow L) → Option (Allow L)
timed now none = none
timed now (some limiter) = some (limiter now)

-- `deps.Config == nil || deps.Config.RateLimit.Enabled`
abbrev pub limits : {F : Type 0} → Option (Config F) → Bool
limits none = true
limits (some cfg) = cfg.rate_limit.enabled

-- `CORS` is used where there is a configuration.
abbrev pub preflight : {F : Type 0} → Option (Config F) → Text → Bool
preflight none method = false
preflight (some cfg) method = is_preflight method

abbrev pub cors_of : {F : Type 0} → Option (Config F) → Text → Headers
cors_of none origin = []
cors_of (some cfg) origin = cors_headers cfg.cors origin

-- `OptionalAuth`, where there is a manager
abbrev pub note_caller : Option (AuthConfig × Jwt) → Time → Text → Context → Passage
note_caller none now header c = next c
note_caller (some (cfg, jwt)) now header c = optional_auth cfg jwt now header c

-- `authMW`
abbrev pub require_caller : Option (AuthConfig × Jwt) → Time → Text → Context → Passage
require_caller none now header c = next c
require_caller (some (cfg, jwt)) now header c = auth_middleware cfg jwt now header c

module _ {F R L : Type 0} (a : App F R L) where
  -- The guards of a route
  unfoldable pub guard : Reads → Text → Access → Context → Passage
  guard r header anyone c = next c
  guard r header user c = require_caller a.manager r.guarded_at header c
  guard r header admin c = then_guard (require_caller a.manager r.guarded_at header c) admin_only

  abbrev pub passed : Reads → List Text → Endpoint → Passage → Handle (Server R)
  passed r lines e (next c) s = dispatch a r c lines e s
  passed r lines e (stop reply) s = (problem reply, s)

  -- The guards of the route and its handler; gin answers 404 where no route has matched.
  abbrev pub routed : Reads → Text → List Text → Option Endpoint → Context → Handle (Server R)
  routed r header lines none c s = (bare 404, s)
  routed r header lines (some e) c s = passed r lines e (guard r header (access_of e) c) s

  abbrev pub route_path : Option Endpoint → Text
  route_path none = []
  route_path (some e) = full_path e

  -- The line that `RequestLogger` makes of a request and its status
  abbrev pub line_of : Reads → Request → Answer → Line
  line_of r req answer = record {
    id = request_id req.request_id r.fresh_request_id;
    method = req.method;
    path = path_of (route_path req.endpoint) req.path;
    status = status_of answer;
  }

  abbrev pub logged : Reads → Request → Answer × Server R → Handle (Site R L)
  logged r req (answer, server) s = (
    answer,
    record s {
      server = server;
      journal = log_request r.logged_at (line_of r req answer) s.journal;
    },
  )

  abbrev pub past_limits : Reads → Request → Passage × L → Handle (Site R L)
  past_limits r req (stop reply, l) s = (problem reply, record s { limiters = l })
  past_limits r req (next c, l) s =
      logged r req (routed r req.authorization (snapshot s.journal.buffer) req.endpoint c s.server)
        (record s { limiters = l })

  abbrev pub ask_limits : Reads → Request → Context → L → Passage × L
  ask_limits r req c l =
      if limits a.config
      then rate_limit a.uuids.text (timed r.ip_at a.ip_limiter) (timed r.user_at a.user_limiter)
          req.client_ip c l
      else (next c, l)

  abbrev pub noted : Reads → Request → Passage → Handle (Site R L)
  noted r req (stop reply) s = (problem reply, s)
  noted r req (next c) s = past_limits r req (ask_limits r req c s.limiters) s

  -- The middleware behind `RequestID`; a preflight is answered and aborted.
  unfoldable pub handle : Reads → Request → Handle (Site R L)
  unfolding dispatch guard full_path access_of
  handle r req s =
      if preflight a.config req.method
      then (bare 204, s)
      else noted r req (note_caller a.manager r.noted_at req.authorization anonymous) s

  -- The answer to a request with the headers of `RequestID` and `CORS`
  unfoldable pub serve : Reads → Request → Site R L → Response × Site R L
  unfolding handle
  serve r req s = (
    record {
      answer = (handle r req s).0;
      headers =
          (codes "X-Request-ID", request_id req.request_id r.fresh_request_id)
          ∷ cors_of a.config req.origin;
    },
    (handle r req s).1,
  )

  -- Requests, one after the other
  unfoldable pub serve_all : List (Reads × Request) → Site R L → Site R L
  unfolding serve
  serve_all [] s = s
  serve_all ((r, req) ∷ rest) s = serve_all rest (serve r req s).1

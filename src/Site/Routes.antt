-- ===== src/Site/Routes.antt =====
-- The routes of internal/app/router.go and of the `RegisterRoutes` methods of the handlers, with
-- what each handler reads of its request.
use api_free_demo.Base.{◌⊎◌, Text, codes}
use api_free_demo.Base.Outcome.{Error}
use api_free_demo.Profile
use api_free_demo.User
use api_free_demo.Http.ProfileHandler.{Query}

-- The routes, with what their handlers read of the request
pub data Endpoint : Type 0 where
  health metrics debug_logs get_me : Endpoint
  register : User.RegisterRequest ⊎ Error → Endpoint
  login : User.LoginRequest ⊎ Error → Endpoint
  refresh : Text ⊎ Error → Endpoint
  update_me : User.UpdateUserRequest ⊎ Error → Endpoint
  list_users : Query → Endpoint
  create : Profile.CreateRequest ⊎ Error → Endpoint
  bulk_create : Profile.BulkCreateRequest ⊎ Error → Endpoint
  list : Query → Endpoint
  get : Text → Endpoint
  update : Text → Profile.UpdateRequest ⊎ Error → Endpoint
  patch : Text → Profile.PatchRequest ⊎ Error → Endpoint
  delete : Text → Query → Endpoint
  bulk_delete : Profile.BulkDeleteRequest ⊎ Error → Endpoint

-- `c.FullPath()`: the path that the route is registered with
unfoldable pub full_path : Endpoint → Text
full_path health = codes "/api/v1/health"
full_path metrics = codes "/api/v1/metrics"
full_path debug_logs = codes "/api/v1/debug/logs"
full_path get_me = codes "/api/v1/users/me"
full_path (register body) = codes "/api/v1/auth/register"
full_path (login body) = codes "/api/v1/auth/login"
full_path (refresh body) = codes "/api/v1/auth/refresh"
full_path (update_me body) = codes "/api/v1/users/me"
full_path (list_users q) = codes "/api/v1/admin/users"
full_path (create body) = codes "/api/v1/profiles"
full_path (bulk_create body) = codes "/api/v1/profiles/bulk"
full_path (list q) = codes "/api/v1/profiles"
full_path (get id) = codes "/api/v1/profiles/:id"
full_path (update id body) = codes "/api/v1/profiles/:id"
full_path (patch id body) = codes "/api/v1/profiles/:id"
full_path (delete id q) = codes "/api/v1/profiles/:id"
full_path (bulk_delete body) = codes "/api/v1/profiles/bulk"

-- Who may call a route: anyone, a user with a token, or an admin
pub data Access : Type 0 where
  anyone user admin : Access

-- The groups that the routes are registered in
unfoldable pub access_of : Endpoint → Access
access_of health = anyone
access_of metrics = anyone
access_of (register body) = anyone
access_of (login body) = anyone
access_of (refresh body) = anyone
access_of debug_logs = admin
access_of (list_users q) = admin
access_of _ = user

-- ===== src/Site/Isolation.antt =====
-- The requests of others, and the profiles of a user.
use api_free_demo.Base.{
  ◌≡◌, ◌≢◌, refl, ◌∙◌, Option, none, some, List, [], ◌∷◌, Text, All, Bool-cases, inl, inr,
}
use api_free_demo.Profile.{Uuid}
use api_free_demo.Auth.{AuthConfig, Jwt, Claims}
use api_free_demo.UserApi.{Server}
use api_free_demo.ProfileApi.Isolation.{rows_of}
use api_free_demo.Http.{Context, Passage, next, stop, auth_middleware}
use api_free_demo.Http.Answer.{Answer}
use api_free_demo.Site.{
  App, Site, Request, Reads, Endpoint, Access, anyone, user, admin, access_of, preflight,
  note_caller, guard, passed, routed, noted, past_limits, ask_limits, handle, serve, serve_all,
  anonymous,
}
use api_free_demo.Site.Passing.{Bears, Checked, passes, stops, auth_middleware-Checked, guard-user}
use api_free_demo.Site.Effects.{dispatch-isolates}

-- No good token of the request, at the time of the check, is one of the user `w`.
abbrev pub IsOther : AuthConfig → Jwt → Uuid → Reads × Request → Type 0
IsOther cfg jwt w (r, req) =
    (claims : Claims) → Bears cfg jwt r.guarded_at req.authorization claims → claims.user_id ≢ w

module _ {F R L : Type 0} (a : App F R L) (cfg : AuthConfig) (jwt : Jwt)
    (managed : a.manager ≡ some (cfg, jwt)) (w : Uuid) where
  module _ (r : Reads) (req : Request)
      (other : (claims : Claims)
        → Bears cfg jwt r.guarded_at req.authorization claims
        → claims.user_id ≢ w) where
    module _ (c : Context) (lines : List Text) (s : Server R) where
      Kept : Answer × Server R → Type 0
      Kept result = rows_of w result.1.db.profiles ≡ rows_of w s.db.profiles

      uncalled : (e : Endpoint) (p : Passage) → access_of e ≢ user → Kept (passed a r lines e p s)
      unfolding Kept
      uncalled e (next c') h = dispatch-isolates a r c' lines s w e λ q. absurd (h q)
      uncalled e (stop reply) h = refl

      called :
          (e : Endpoint) (p : Passage)
          → Checked cfg jwt r.guarded_at req.authorization c p
          → Kept (passed a r lines e p s)
      unfolding Kept
      called e _ (passes claims bears) =
          dispatch-isolates a r _ lines s w e λ _. (claims.user_id, refl, other claims bears)
      called e _ (stops message) = refl

      by_access :
          (e : Endpoint) (acc : Access)
          → access_of e ≡ acc
          → Kept (passed a r lines e (guard a r req.authorization acc c) s)
      by_access e anyone q = uncalled e _ λ u. cc
      by_access e admin q = uncalled e _ λ u. cc
      by_access e user q = rw (guard-user a cfg jwt managed r req.authorization c) (
          called e (auth_middleware cfg jwt r.guarded_at req.authorization c)
            (auth_middleware-Checked cfg jwt r.guarded_at req.authorization c))

      routed-Kept : (e : Option Endpoint) → Kept (routed a r req.authorization lines e c s)
      unfolding Kept
      routed-Kept none = refl
      routed-Kept (some e) = by_access e (access_of e) refl

    module _ (s : Site R L) where
      KeptAll : Answer × Site R L → Type 0
      KeptAll result = rows_of w result.1.server.db.profiles ≡ rows_of w s.server.db.profiles

      past_limits-Kept : (p : Passage) (l : L) → KeptAll (past_limits a r req (p, l) s)
      unfolding KeptAll Kept
      past_limits-Kept (next c) l = routed-Kept c _ s.server req.endpoint
      past_limits-Kept (stop reply) l = refl

      noted-Kept : (p : Passage) → KeptAll (noted a r req p s)
      unfolding KeptAll
      noted-Kept (next c) =
          past_limits-Kept (ask_limits a r req c s.limiters).0 (ask_limits a r req c s.limiters).1
      noted-Kept (stop reply) = refl

      serve-Kept : rows_of w (serve a r req s).1.server.db.profiles ≡ rows_of w s.server.db.profiles
      unfolding serve handle KeptAll
      serve-Kept = elim (Bool-cases (preflight a.config req.method)) [
        | inl early ↦ rw early refl
        | inr later ↦
            rw later (noted-Kept (note_caller a.manager r.noted_at req.authorization anonymous))
      ]

  -- Whatever requests a server with a token manager serves, to any routes and with any bodies, in
  -- any order and with any faults of the database: if none of them bears, when its route checks
  -- it, a token that the manager accepts for the user `w`, then the profiles of `w` are the same
  -- rows in the same order afterwards.
  pub serve_all_isolates :
      (requests : List (Reads × Request)) (s : Site R L)
      → All (IsOther cfg jwt w) requests
      → rows_of w (serve_all a requests s).server.db.profiles ≡ rows_of w s.server.db.profiles
  unfolding serve_all
  serve_all_isolates [] s h = refl
  serve_all_isolates ((r, req) ∷ rest) s h =
      serve_all_isolates rest (serve a r req s).1 h.1 ∙ serve-Kept r req h.0 s

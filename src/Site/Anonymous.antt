-- ===== src/Site/Anonymous.antt =====
-- Requests without a good token.
use api_free_demo.Base.{ℕ, ◌≡◌, ◌≢◌, refl, ◌⊎◌, inl, inr, some, List, Text, Bool-cases}
use api_free_demo.Auth.{AuthConfig, Jwt, Claims}
use api_free_demo.UserApi.{Server}
use api_free_demo.Http.{
  Context, Passage, next, stop, auth_middleware, admin_only, then_guard, too_many_requests,
}
use api_free_demo.Http.Answer.{Answer, status_of}
use api_free_demo.Site.{
  App, Site, Request, Reads, Endpoint, Access, anyone, user, admin, access_of, preflight,
  note_caller, guard, passed, routed, noted, past_limits, ask_limits, handle, serve, anonymous,
}
use api_free_demo.Site.Passing.{
  Bears, Checked, passes, stops, auth_middleware-Checked, ask_limits-stops, note_caller-passes,
  reply_of, guard-user, guard-admin,
}

-- The answer says that a token is missing or bad (401), that a limiter has denied the request
-- (429), or that it is a preflight (204).
pub data IsRefusal : ℕ → Type 0 where
  unauthenticated : IsRefusal 401
  denied : IsRefusal 429
  preflighted : IsRefusal 204

module _ {F R L : Type 0} (a : App F R L) (cfg : AuthConfig) (jwt : Jwt)
    (managed : a.manager ≡ some (cfg, jwt)) (r : Reads) (req : Request)
    (tokenless : (claims : Claims) → ¬ Bears cfg jwt r.guarded_at req.authorization claims)
    (e : Endpoint) (found : req.endpoint ≡ some e) (private_route : access_of e ≢ anyone) where
  module _ (c : Context) (lines : List Text) (s : Server R) where
    IsRefused : Answer × Server R → Type 0
    IsRefused result = IsRefusal (status_of result.0) × (result.1 ≡ s)

    refused :
        (p : Passage)
        → Checked cfg jwt r.guarded_at req.authorization c p
        → IsRefused (passed a r lines e p s)
          × IsRefused (passed a r lines e (then_guard p admin_only) s)
    unfolding IsRefused
    refused _ (passes claims bears) = absurd (tokenless claims bears)
    refused _ (stops message) = ((unauthenticated, refl), (unauthenticated, refl))

    checked :
        Checked cfg jwt r.guarded_at req.authorization c
          (auth_middleware cfg jwt r.guarded_at req.authorization c)
    checked = auth_middleware-Checked cfg jwt r.guarded_at req.authorization c

    by_access :
        (acc : Access)
        → acc ≢ anyone
        → IsRefused (passed a r lines e (guard a r req.authorization acc c) s)
    by_access anyone h = absurd (h refl)
    by_access user h = rw (guard-user a cfg jwt managed r req.authorization c) (refused _ checked).0
    by_access admin h =
        rw (guard-admin a cfg jwt managed r req.authorization c) (refused _ checked).1

    routed-IsRefused : IsRefused (routed a r req.authorization lines req.endpoint c s)
    routed-IsRefused = rw found (by_access (access_of e) private_route)

  module _ (s : Site R L) where
    IsTurned : Answer × Site R L → Type 0
    IsTurned result = IsRefusal (status_of result.0) × (result.1.server ≡ s.server)

    past_limits-IsTurned :
        (c : Context) (p : Passage) (l : L)
        → (p ≡ next c) ⊎ (p ≡ stop too_many_requests)
        → IsTurned (past_limits a r req (p, l) s)
    unfolding IsTurned IsRefused
    past_limits-IsTurned c (next c') l h = routed-IsRefused c' _ s.server
    past_limits-IsTurned c (stop reply) l (inl e) = cc
    past_limits-IsTurned c (stop reply) l (inr e) = rw (reply_of reply e) (denied, refl)

    noted-IsTurned : (p : Passage) (c : Context) → p ≡ next c → IsTurned (noted a r req p s)
    noted-IsTurned (next c') c e =
        past_limits-IsTurned c' (ask_limits a r req c' s.limiters).0
          (ask_limits a r req c' s.limiters).1
          (elim (ask_limits-stops a r req c' s.limiters) [ inl h ↦ inl h.1 | inr h ↦ inr h.1 ])
    noted-IsTurned (stop reply) c e = cc

    -- With a token manager, a request to a route that wants a user or an admin, and that bears no
    -- token that the manager accepts when the route checks it, is answered 401, or 429 or 204
    -- before that, and leaves the tables and the tokens as they were.
    pub tokenless_refused :
        IsRefusal (status_of (serve a r req s).0.answer) × ((serve a r req s).1.server ≡ s.server)
    unfolding serve handle IsTurned
    tokenless_refused = elim (Bool-cases (preflight a.config req.method)) [
      | inl early ↦ rw early (preflighted, refl)
      | inr later ↦
          let passed = note_caller-passes a.manager r.noted_at req.authorization anonymous in
          rw later (
            noted-IsTurned (note_caller a.manager r.noted_at req.authorization anonymous) passed.0
              passed.1)
    ]

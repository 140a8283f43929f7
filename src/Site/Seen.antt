-- ===== src/Site/Seen.antt =====
-- Which requests the log and the counter see.
use api_free_demo.Base.{◌≡◌, ◌⊎◌, Bool, true, false, [], ◌∷◌, ◌++◌}
use api_free_demo.Strings.Decimal.{decimal}
use api_free_demo.Diagnostics.{append}
use api_free_demo.Http.{Context, next, too_many_requests}
use api_free_demo.Http.Answer.{Answer, problem, bare, status_of}
use api_free_demo.Http.Middleware.{entry}
use api_free_demo.Site.{App, Site, Request, Reads, preflight, note_caller, line_of, anonymous}
use api_free_demo.Site.Passing.{over_limit}

module _ {F R L : Type 0} (a : App F R L) (r : Reads) (req : Request) (s : Site R L) where
  -- The context that `OptionalAuth` gives the request, and whether the limits deny it
  pub record Caller (denial : Bool) : Type 0 where
    pub context : Context
    pub seen_as : note_caller a.manager r.noted_at req.authorization anonymous ≡ next context
    pub verdict : over_limit a r req context s.limiters ≡ denial

  -- A preflight, or a request that a limiter has denied: the log, the counter, the tables and the
  -- tokens are as before.
  pub record IsTurnedAway (answer : Answer) (after : Site R L) : Type 0 where
    pub is_early :
        ((preflight a.config req.method ≡ true) × (answer ≡ bare 204))
        ⊎ ((answer ≡ problem too_many_requests) × Caller true)
    pub same_server : after.server ≡ s.server
    pub same_journal : after.journal ≡ s.journal

  -- The request has added one line to the log and to the buffer, and one to the counter, each with
  -- the status of its answer.
  pub record IsLogged (answer : Answer) (after : Site R L) : Type 0 where
    pub no_preflight : preflight a.config req.method ≡ false
    pub within_limits : Caller false
    pub line : after.journal.lines ≡ s.journal.lines ++ line_of a r req answer ∷ []
    pub shown :
        after.journal.buffer ≡ append (entry r.logged_at (line_of a r req answer)) s.journal.buffer
    pub observed :
        after.journal.observed
        ≡ s.journal.observed
          ++ record {
            path = (line_of a r req answer).path;
            method = req.method;
            status = decimal (status_of answer);
          }
            ∷ []

  abbrev IsServed : Answer × Site R L → Type 0
  IsServed result = IsTurnedAway result.0 result.1 ⊎ IsLogged result.0 result.1

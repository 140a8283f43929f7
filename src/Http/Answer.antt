-- ===== src/Http/Answer.antt =====
-- What a handler writes, and the steps that the handlers share: the binding of a body, the
-- identifier of the caller, and what a service returns.
use api_free_demo.Base.{ℕ, zero, suc, ◌⊎◌, inl, inr, Option, none, some, List, Text}
use api_free_demo.Base.Outcome.{Error, Outcome, ok, err}
use api_free_demo.User.{Uuid, User, AuthResponse}
use api_free_demo.Profile.{Profile}
use api_free_demo.Http.Reply.{Reply, validation_error}

-- The JSON body of an answer
pub data Payload : Type 0 where
  profile : Profile → Payload
  report : List Profile → Option (List Text) → Payload
  listing : List Profile → (total offset limit : ℕ) → (next_cursor : Text) → Payload
  deleted : ℕ → Payload
  session : AuthResponse → Payload
  user : Option User → Payload
  users : List User → (total offset limit : ℕ) → Payload
  logs : List Text → Payload
  health metrics : Payload

-- An `ErrorResponse`; a status with a body, and perhaps a Location header; a status alone.
pub data Answer : Type 0 where
  problem : Reply → Answer
  success : ℕ → Option Text → Payload → Answer
  bare : ℕ → Answer

abbrev pub status_of : Answer → ℕ
status_of (problem r) = r.status
status_of (success status location body) = status
status_of (bare status) = status

-- A handler, for a request that it has read
abbrev pub Handle : Type 0 → Type 0
Handle S = S → Answer × S

-- What follows `c.ShouldBindJSON`: the request, or the error of the binding
abbrev pub bound : {S A : Type 0} → A ⊎ Error → (A → Handle S) → Handle S
bound (inl req) k s = k req s
bound (inr e) k s = (problem (validation_error e), s)

-- What follows `MustUserID`: `uuid.Nil` ends the handler, with the answer that it has given if it
-- has given one.
abbrev pub with_user : {S : Type 0} → Uuid × Option Reply → (Uuid → Handle S) → Handle S
with_user (zero, none) k s = (bare 200, s)
with_user (zero, some r) k s = (problem r, s)
with_user (suc n, r) k s = k (suc n) s

-- `if err != nil { h.handleError(c, err); return }`, and the answer of a call that succeeds
unfoldable pub answered : {S A : Type 0} → (Error → Reply) → (A → Answer) → Outcome S A → Answer × S
answered fault good (ok a s) = (good a, s)
answered fault good (err e s) = (problem (fault e), s)

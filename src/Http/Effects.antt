-- ===== src/Http/Effects.antt =====
-- What the handlers of profiles do to the tables.
use api_free_demo.Base.{
  zero, suc, ◌≡◌, refl, sym, ◌⊎◌, inl, inr, Option, none, some, Text, codes, text_eq,
}
use mathlib.Core.Path.{subst}
use api_free_demo.Base.Outcome.{Error, Outcome, ok, err, state_of}
use api_free_demo.Validation.{Validator}
use api_free_demo.Profile.{
  Uuid, Policy, CreateRequest, UpdateRequest, PatchRequest, BulkCreateRequest, BulkDeleteRequest,
}
use api_free_demo.Db.{Db, Driver, profile_repository}
use api_free_demo.Db.Rules.{Acts, Acts-refl}
use api_free_demo.ProfileApi.{Readings, Call, perform}
use api_free_demo.ProfileApi.Effects.{perform-Acts}
use api_free_demo.Http.{Context, must_user_id, parse_version}
use api_free_demo.Http.Reply.{Reply}
use api_free_demo.Http.Answer.{Answer, Handle, bound, with_user, answered}
use api_free_demo.Http.ProfileHandler
use api_free_demo.Http.ProfileHandler.{Uuids, Sources, Query, with_id, filter_of, reported}
use api_free_demo.Http.UserHandler.{with_claimed}

-- A predicate that holds at the start holds after the steps of a handler if it holds after the
-- call behind them.
module _ {S : Type 0} (P : S → Type 0) (s : S) where
  pub bound-leads :
      {A : Type 0} (body : A ⊎ Error) (k : A → Handle S)
      → P s
      → ((req : A) → P (k req s).1)
      → P (bound body k s).1
  bound-leads (inl req) k h next = next req
  bound-leads (inr e) k h next = h

  pub with_id-leads :
      (id : Option Uuid) (k : Uuid → Handle S)
      → P s
      → ((id : Uuid) → P (k id s).1)
      → P (with_id id k s).1
  with_id-leads none k h next = h
  with_id-leads (some id) k h next = next id

  pub with_claimed-leads :
      (id : Option Uuid) (k : Uuid → Handle S)
      → P s
      → ((id : Uuid) → P (k id s).1)
      → P (with_claimed id k s).1
  with_claimed-leads none k h next = h
  with_claimed-leads (some id) k h next = next id

  pub with_user-leads :
      (m : Uuid × Option Reply) (u : Uuid) (k : Uuid → Handle S)
      → m.0 ≡ u
      → P s
      → P (k u s).1
      → P (with_user m k s).1
  with_user-leads (zero, none) u k e h next = h
  with_user-leads (zero, some r) u k e h next = h
  with_user-leads (suc n, r) u k e h next = subst (λ v. P (k v s).1) (sym e) next

pub answered-leads :
    {S A : Type 0} (P : S → Type 0) (fault : Error → Reply) (good : A → Answer) (o : Outcome S A)
    → P (state_of o)
    → P (answered fault good o).1
unfolding answered
answered-leads P fault good (ok a s) h = h
answered-leads P fault good (err e s) h = h

must_user_id-caller : (c : Context) (u : Uuid) → c.user_id ≡ some u → (must_user_id c).0 ≡ u
unfolding must_user_id
must_user_id-caller c u e = rw e refl

module _ (d : Driver) (v : Validator) (policy : Policy) (uuids : Uuids) (message_of : Error → Text)
    (c : Context) (u : Uuid) (caller : c.user_id ≡ some u) (db : Db) where
  -- The predicate is that the tables are reached by steps of the caller.
  abbrev Own : Db → Type 0
  Own after = Acts u db after

  -- What `MustUserID` leads to
  authenticated : (k : Uuid → Handle Db) → Own (k u db).1 → Own (with_user (must_user_id c) k db).1
  authenticated k h =
      with_user-leads Own db (must_user_id c) u k (must_user_id-caller c u caller) (Acts-refl u db)
        h

  bind :
      {A : Type 0} (body : A ⊎ Error) (k : A → Handle Db)
      → ((req : A) → Own (k req db).1)
      → Own (bound body k db).1
  bind body k h = bound-leads Own db body k (Acts-refl u db) h

  parse_id :
      (id : Option Uuid) (k : Uuid → Handle Db)
      → ((id : Uuid) → Own (k id db).1)
      → Own (with_id id k db).1
  parse_id id k h = with_id-leads Own db id k (Acts-refl u db) h

  readings : Sources → Readings
  readings r = record { now = r.now; new_id = r.new_id }

  -- `get` and `list` read nothing.
  abbrev no_readings : Readings
  no_readings = record { now = λ n. 0; new_id = λ n. 0 }

  pub create-Acts :
      (r : Sources) (body : CreateRequest ⊎ Error)
      → Own (ProfileHandler.create (profile_repository d) v policy uuids message_of r c body db).1
  unfolding ProfileHandler.create perform readings
  create-Acts r body = bind body _ λ req.
      authenticated _
        (answered-leads Own _ _ _ (perform-Acts u d v policy (readings r) (Call.create req) db))

  pub list-Acts :
      (q : Query)
      → Own (ProfileHandler.list (profile_repository d) v policy uuids message_of c q db).1
  unfolding ProfileHandler.list perform readings
  list-Acts q = authenticated _ (
      answered-leads Own _ _ _
        (perform-Acts u d v policy no_readings (Call.list (filter_of u q)) db))

  pub bulk_create-Acts :
      (r : Sources) (body : BulkCreateRequest ⊎ Error)
      → Own
          (ProfileHandler.bulk_create
            (profile_repository d)
            v
            policy
            uuids
            message_of
            r
            c
            body
            db).1
  unfolding ProfileHandler.bulk_create perform readings
  bulk_create-Acts r body =
      bind body _
        λ req. authenticated _ (perform-Acts u d v policy (readings r) (Call.bulk_create req) db)

  pub get-Acts :
      (id : Text)
      → Own (ProfileHandler.get (profile_repository d) v policy uuids message_of c id db).1
  unfolding ProfileHandler.get perform
  get-Acts id = authenticated _ (
      parse_id (uuids.parse id) _
        λ id. answered-leads Own _ _ _ (perform-Acts u d v policy no_readings (Call.get id) db))

  pub update-Acts :
      (r : Sources) (id : Text) (body : UpdateRequest ⊎ Error)
      → Own
          (ProfileHandler.update (profile_repository d) v policy uuids message_of r c id body db).1
  unfolding ProfileHandler.update perform readings
  update-Acts r id body = bind body _ λ req. authenticated _ (
      parse_id (uuids.parse id) _ λ id.
        answered-leads Own _ _ _ (perform-Acts u d v policy (readings r) (Call.update id req) db))

  pub patch-Acts :
      (r : Sources) (id : Text) (body : PatchRequest ⊎ Error)
      → Own (ProfileHandler.patch (profile_repository d) v policy uuids message_of r c id body db).1
  unfolding ProfileHandler.patch perform readings
  patch-Acts r id body = bind body _ λ req. authenticated _ (
      parse_id (uuids.parse id) _ λ id.
        answered-leads Own _ _ _ (perform-Acts u d v policy (readings r) (Call.patch id req) db))

  pub delete-Acts :
      (r : Sources) (id : Text) (q : Query)
      → Own (ProfileHandler.delete (profile_repository d) v policy uuids message_of r c id q db).1
  unfolding ProfileHandler.delete perform readings
  delete-Acts r id q = authenticated _ (
      parse_id (uuids.parse id) _ λ id. answered-leads Own _ _ _ (
        perform-Acts u d v policy (readings r)
          (Call.delete id (text_eq q.hard (codes "true")) (parse_version q.version)) db))

  pub bulk_delete-Acts :
      (r : Sources) (body : BulkDeleteRequest ⊎ Error)
      → Own
          (ProfileHandler.bulk_delete
            (profile_repository d)
            v
            policy
            uuids
            message_of
            r
            c
            body
            db).1
  unfolding ProfileHandler.bulk_delete perform readings
  bulk_delete-Acts r body = bind body _ λ req.
      authenticated _ (
        answered-leads Own _ _ _ (perform-Acts u d v policy (readings r) (Call.bulk_delete req) db))

-- ===== src/ProfileApi/Creates.antt =====
-- `Service.Create`: what is stored, and that a valid request has a date that parses.
use mathlib.Core.Path.{ap₂}
use api_free_demo.Base.{
  ◌≡◌, ◌≢◌, refl, ◌∙◌, true, false, Option, none, some, List, [], ◌∷◌, ◌++◌, arith, pos,
  Option-cases, inl, inr, ap, Text, codes,
}
use api_free_demo.Base.Outcome.{Error, ok}
use api_free_demo.Base.Triple.{Ends, Triple, then_call, ends_ok}
use api_free_demo.Time.{Time, parse_date}
use api_free_demo.Validation.{Validator, Failures, verdict, required, pointer_url, pointer_date}
use api_free_demo.Profile
use api_free_demo.Profile.{
  Uuid, Profile, CreateRequest, Policy, validate_create, create_failures, new_profile,
  assign_optional_fields, assign_date,
}
use api_free_demo.Db
use api_free_demo.Db.{
  Db, Driver, profile_repository, first, live, insert, insert_refusal, insert_unless, inserted,
  has_profile,
}
use api_free_demo.Db.Rules.{insert_refusal-has_profile}
use api_free_demo.ProfileApi.Reads.{get_live}
use api_free_demo.ProfileApi.Contracts.{
  Unchanged, Given, check-Triple, or_bad_date-Triple, statement-Triple,
}

append_nil_left : (xs ys : Failures) → xs ++ ys ≡ [] → xs ≡ []
append_nil_left [] ys e = refl
append_nil_left (x ∷ xs) ys e = cc

append_nil_right : (xs ys : Failures) → xs ++ ys ≡ [] → ys ≡ []
append_nil_right [] ys e = e
append_nil_right (x ∷ xs) ys e = cc

fifth_passes : (a b c d e f : Failures) → a ++ b ++ c ++ d ++ e ++ f ≡ [] → e ≡ []
fifth_passes a b c d e f h =
    append_nil_right (a ++ b ++ c ++ d) e (append_nil_left (a ++ b ++ c ++ d ++ e) f h)

verdict-none : (fs : Failures) → verdict fs ≡ none → fs ≡ []
verdict-none [] e = refl
verdict-none (f ∷ fs) e = cc

date_assigned :
    (field : Text) (date : Option Text) (old : Option Time)
    → pointer_date field date ≡ []
    → (new : Option Time) × (assign_date date old ≡ some new)
date_assigned field none old e = (old, refl)
date_assigned field (some []) old e = (old, refl)
date_assigned field (some (c ∷ s)) old e = elim (Option-cases (parse_date (c ∷ s))) [
  | inl unparsed ↦ let broken : ⊥ = ground arith in absurd broken
  | inr (t, parsed) ↦ (some t, ground arith)
]

made_if_dated :
    (policy : Policy) (p : Profile) (req : CreateRequest) (date : Option Time)
    → assign_date req.date_of_birth p.date_of_birth ≡ some date
    → assign_optional_fields policy p req ≢ none
unfolding assign_optional_fields
made_if_dated policy p req date e unmade = ground arith

module _ (db : Db) (F : Type 0) (d : Driver) (q : Profile) where
  abbrev pub Inserted : Db → Type 0
  Inserted t =
      F
      × (has_profile q.id db.profiles ≡ false)
      × (t.profiles ≡ db.profiles ++ inserted d q ∷ [])
      × (t.users ≡ db.users)

  insert_unless-Ends :
      (o : Option Error) (s : Db)
      → Given db F s
      → (o ≡ none → has_profile q.id s.profiles ≡ false)
      → Ends (λ _. Inserted) (Unchanged db) (insert_unless d o q s)
  insert_unless-Ends (some e) s g h = g.1
  insert_unless-Ends none s g h =
      (g.0, rw g.1.0 at (h refl), ap (λ rows. rows ++ inserted d q ∷ []) g.1.0, g.1.1)

  pub insert-Triple : Triple (Given db F) (insert d q) (λ _. Inserted) (Unchanged db)
  unfolding insert
  insert-Triple = record {
    ends = λ s g. insert_unless-Ends (insert_refusal d q s) s g (insert_refusal-has_profile d q s);
  }

-- A request that the validator lets pass never meets the error `invalid date_of_birth`: the
-- profile is made, whatever it is made from.
pub valid_create_assigns :
    (v : Validator) (policy : Policy) (p : Profile) (req : CreateRequest)
    → validate_create v req ≡ none
    → (q : Profile) × (assign_optional_fields policy p req ≡ some q)
unfolding validate_create create_failures
valid_create_assigns v policy p req valid =
    let date_pass =
      fifth_passes (required (codes "FirstName") req.first_name)
        (required (codes "LastName") req.last_name)
        (pointer_url v (codes "ProfileImage") req.profile_image)
        (pointer_url v (codes "CoverImage") req.cover_image)
        (pointer_date (codes "DateOfBirth") req.date_of_birth)
        (pointer_url v (codes "Website") req.website)
        (verdict-none (create_failures v req) valid) in
    let (date, e) =
      date_assigned (codes "DateOfBirth") req.date_of_birth p.date_of_birth date_pass in
    elim (Option-cases (assign_optional_fields policy p req)) [
      | inl unmade ↦ absurd (made_if_dated policy p req date e unmade)
      | inr made ↦ made
    ]

-- A profile as the columns keep its times
abbrev pub rounded : Driver → Profile → Profile
rounded d q = record q {
  created_at = d.kept_time q.created_at;
  updated_at = d.kept_time q.updated_at;
}

-- What the insertion leaves out is absent anyway.
inserted-live : (d : Driver) (q : Profile) → q.deleted_at ≡ none → inserted d q ≡ rounded d q
inserted-live d q h = ground arith

module _ (d : Driver) (v : Validator) (policy : Policy) (now : Time) (id u : Uuid)
    (req : CreateRequest) where
  -- The profile that a request makes
  abbrev Makes : Profile → Type 0
  Makes q = assign_optional_fields policy (new_profile policy now id u req) req ≡ some q

  -- A profile that a request makes is live, at version 1, and the user's.
  Makes-fields :
      (q : Profile)
      → Makes q
      → (q.id ≡ id)
        × (q.user_id ≡ u)
        × (q.version ≡ pos 1)
        × (q.deleted_at ≡ none)
        × (q.created_at ≡ now)
        × (q.updated_at ≡ now)
  unfolding assign_optional_fields new_profile
  Makes-fields q e = ground arith

  module _ (db : Db) where
    -- A successful creation: a valid request, a new identifier, one more row
    abbrev pub IsCreation : Profile → Db → Type 0
    IsCreation q after =
        (validate_create v req ≡ none)
        × Makes q
        × (has_profile q.id db.profiles ≡ false)
        × (after.profiles ≡ db.profiles ++ rounded d q ∷ [])
        × (after.users ≡ db.users)

    whole : (q : Profile) → Makes q → inserted d q ≡ rounded d q
    whole q made = inserted-live d q (Makes-fields q made).3

    create-Triple :
        Triple
          (Given db (Unit {0}))
          (Profile.create (profile_repository d) v policy now id u req)
          IsCreation
          (Unchanged db)
    unfolding Profile.create Db.create
    create-Triple = then_call (check-Triple db (validate_create v req)) λ _.
        then_call (or_bad_date-Triple db _) λ q.
          then_call (statement-Triple db (insert-Triple db _ d q)) λ _. record {
            ends = λ s k. (
              k.0.1.0,
              k.0.0,
              k.1,
              k.2 ∙ ap (λ row. db.profiles ++ row ∷ []) (whole q k.0.0),
              k.3,
            );
          }

    -- A creation that fails leaves both tables as they were; one that succeeds was of a valid
    -- request and has added one row at the end, the profile that it returns with its
    -- times as the columns keep them, under an identifier that no row had.
    pub create_contract :
        Ends IsCreation
          (Unchanged db)
          (Profile.create (profile_repository d) v policy now id u req db)
    create_contract = create-Triple.ends db (tt, (refl, refl))

has_profile-first :
    (id u : Uuid) (rows : List Profile)
    → has_profile id rows ≡ false
    → first (live id u) rows ≡ none
has_profile-first id u [] h = refl
has_profile-first id u (row ∷ rows) h = ground (arith, has_profile-first id u rows)

first-append :
    (id u : Uuid) (rows : List Profile) (q : Profile)
    → first (live id u) rows ≡ none
    → live id u q ≡ true
    → first (live id u) (rows ++ q ∷ []) ≡ some q
first-append id u [] q h k = rw k refl
first-append id u (row ∷ rows) q h k = ground (arith, first-append id u rows q)

-- After a creation that returned `q`, a read of its identifier by the same user returns, if the
-- database answers, `q` with its two times as the columns keep the time of the call, at version 1.
pub get-create :
    (d : Driver) (v : Validator) (policy : Policy) (now : Time) (id u : Uuid) (req : CreateRequest)
    (db : Db) (q : Profile) (after : Db)
    → Profile.create (profile_repository d) v policy now id u req db ≡ ok q after
    → after.faults ≡ []
    → (Profile.get (profile_repository d) v policy id u after
        ≡ ok (record q { created_at = d.kept_time now; updated_at = d.kept_time now }) after)
      × (q.version ≡ pos 1)
get-create d v policy now id u req db q after e answers =
    let (_, made, fresh, stored, _) = ends_ok _ _ e (create_contract d v policy now id u req db) in
    let (same_id, same_user, version, undeleted, created, renewed) =
      Makes-fields d v policy now id u req q made in
    (
      get_live d v policy id u after answers _ (
          ap (first (live id u)) stored
          ∙ first-append id u db.profiles (rounded d q)
              (has_profile-first id u db.profiles (rw same_id at fresh))
              (ground (arith, same_id, same_user, undeleted))
          ∙ ap some (
              ap₂
                (λ (c t : Time). record q {
                  created_at = d.kept_time c;
                  updated_at = d.kept_time t;
                })
                created renewed)),
      version,
    )

-- ===== src/ProfileApi/Contracts.antt =====
-- What the methods of the profile service promise, for every request and every fault of the
-- database.
use api_free_demo.Base.{
  ℕ, zero, suc, ◌<◌, ◌≡◌, refl, sym, ◌∙◌, ap, Bool, true, false, Option, none, some, List, [], ◌∷◌,
  arith, Text, fits_int4, not, ◌==◌, Bool-cases, inl, inr,
}
use api_free_demo.Base.Outcome.{Error, M, fail_if, check, pure}
use api_free_demo.Base.Triple.{Ends, Triple, then_call, weaken}
use api_free_demo.Profile.{Uuid, Profile, found, or_bad_date}
use api_free_demo.Db
use api_free_demo.Db.{
  Db, Driver, profile_repository, meet, statement, first, live, owned, affected, update_where,
  set_columns, update_rows, insert, insert_refusal, insert_unless, inserted,
}

-- Two states with the same tables
abbrev pub SameTables : Db → Db → Type 0
SameTables a b = (b.profiles ≡ a.profiles) × (b.users ≡ a.users)

update_where_none :
    (test : Profile → Bool) (f : Profile → Profile) (rows : List Profile)
    → affected test rows ≡ 0
    → update_where test f rows ≡ rows
update_where_none test f [] e = refl
update_where_none test f (row ∷ rows) e = elim (Bool-cases (test row)) [
  | inl picked ↦ absurd (nonzero (rw picked at e))
  | inr left ↦ rw left (ap (λ xs. row ∷ xs) (update_where_none test f rows (rw left at e)))
]
  where
    nonzero : {n : ℕ} → suc n ≡ 0 → ⊥
    nonzero e = omega arith

pub suc-eq_zero : (n : ℕ) → (suc n == 0) ≡ false
suc-eq_zero n = ground arith

module _ (db : Db) where
  -- An error leaves the tables as they were.
  abbrev pub Unchanged : Error → Db → Type 0
  Unchanged e s = SameTables db s

  -- Facts about the call so far, the tables still as they were
  abbrev pub Given : Type 0 → Db → Type 0
  Given F s = F × SameTables db s

  meet-Ends :
      {A : Type 0} (F : Type 0) (P : A → Db → Type 0) (faults : List (Option Text)) (m : M Db A)
      (s : Db)
      → Given F s
      → Triple (Given F) m P Unchanged
      → Ends P Unchanged (meet faults m s)
  meet-Ends F P [] m s e h = h.ends s e
  meet-Ends F P (none ∷ rest) m s e h = h.ends (record s { faults = rest }) e
  meet-Ends F P (some x ∷ rest) m s e h = e.1

  module _ {F : Type 0} where
    pub statement-Triple :
        {A : Type 0} {P : A → Db → Type 0} {m : M Db A}
        → Triple (Given F) m P Unchanged
        → Triple (Given F) (statement m) P Unchanged
    unfolding statement
    statement-Triple {P} {m} h = record { ends = λ s e. meet-Ends F P s.faults m s e h }

    pub check-Triple :
        (o : Option Error) → Triple (Given F) (check o) (λ _. Given ((o ≡ none) × F)) Unchanged
    check-Triple none = record { ends = λ s r. ((refl, r.0), r.1) }
    check-Triple (some e) = record { ends = λ s r. r.1 }

    pub fail_if-Triple :
        (b : Bool) (e : Error)
        → Triple (Given F) (fail_if b e) (λ _. Given ((b ≡ false) × F)) Unchanged
    fail_if-Triple true e = record { ends = λ s r. r.1 }
    fail_if-Triple false e = record { ends = λ s r. ((refl, r.0), r.1) }

    pub pure-Triple :
        {A : Type 0} (a : A) → Triple (Given F) (pure a) (λ b. Given ((b ≡ a) × F)) Unchanged
    pure-Triple a = record { ends = λ s r. ((refl, r.0), r.1) }

    pub or_bad_date-Triple :
        (o : Option Profile)
        → Triple (Given F) (or_bad_date o) (λ p. Given ((o ≡ some p) × F)) Unchanged
    or_bad_date-Triple none = record { ends = λ s r. r.1 }
    or_bad_date-Triple (some p) = record { ends = λ s r. ((refl, r.0), r.1) }

    pub found-Triple :
        (o : Option Profile) → Triple (Given F) (found o) (λ p. Given ((o ≡ some p) × F)) Unchanged
    found-Triple none = record { ends = λ s r. r.1 }
    found-Triple (some p) = record { ends = λ s r. ((refl, r.0), r.1) }

    or_not_found-Ends :
        (o r : Option Profile) (s : Db)
        → r ≡ o
        → Given F s
        → Ends (λ x. Given ((o ≡ x) × F)) Unchanged (Db.or_not_found r s)
    or_not_found-Ends o none s e g = g.1
    or_not_found-Ends o (some p) s e g = ((sym e, g.0), g.1)

    -- A profile that is read is the first live row with the identifier and the owner.
    pub get_by_id-Triple :
        (id u : Uuid)
        → Triple
            (Given F)
            (Db.get_by_id id u)
            (λ o. Given ((first (live id u) db.profiles ≡ o) × F))
            Unchanged
    unfolding Db.get_by_id
    get_by_id-Triple id u =
        statement-Triple
          record { ends = λ s r. or_not_found-Ends _ _ s (ap (first (live id u)) r.1.0) r }

  module _ (F : Type 0) where
    -- An UPDATE changes the rows that it picks and counts them.
    abbrev Counted : (Profile → Bool) → (Profile → Profile) → ℕ → Db → Type 0
    Counted test f count t =
        F
        × (t.profiles ≡ update_where test f db.profiles)
        × (t.users ≡ db.users)
        × (count ≡ affected test db.profiles)

    update_rows-Triple :
        (test : Profile → Bool) (f : Profile → Profile)
        → Triple (Given F) (update_rows test f) (Counted test f) Unchanged
    update_rows-Triple test f = record {
      ends = λ s r. (r.0, ap (update_where test f) r.1.0, r.1.1, ap (affected test) r.1.0);
    }

    -- The rows after a successful UPDATE of one row
    abbrev pub Updated : (Profile → Bool) → (Profile → Profile) → Db → Type 0
    Updated test f t =
        F
        × (0 < affected test db.profiles)
        × (t.profiles ≡ update_where test f db.profiles)
        × (t.users ≡ db.users)

    -- Where no row is picked, nothing has changed.
    settle-Triple :
        (test : Profile → Bool) (f : Profile → Profile) (x : Error) (count : ℕ)
        → Triple (Counted test f count) (fail_if (count == 0) x) (λ _. Updated test f) Unchanged
    settle-Triple test f x zero = record {
      ends = λ t c. (c.1 ∙ update_where_none test f db.profiles (sym c.3), c.2);
    }
    settle-Triple test f x (suc n) = record {
      ends = λ t c. rw (suc-eq_zero n) (c.0, omega arith, c.1, c.2);
    }

-- The UPDATE of a profile replaces the described columns of the owner's row.
pub update-Triple :
    (db : Db) (F : Type 0) (d : Driver) (q : Profile)
    → Triple
        (Given db F)
        (Db.update d q)
        (λ _.
          Updated db
            ((not (fits_int4 q.version) ≡ false) × F)
            (owned q.id q.user_id)
            (set_columns d q))
        (Unchanged db)
unfolding Db.update
update-Triple db F d q =
    let test = owned q.id q.user_id in
    let change = set_columns d q in
    then_call
      (statement-Triple db (
        then_call (fail_if-Triple db (not (fits_int4 q.version)) (Error.message d.out_of_range))
          λ _. weaken (λ s r. r) (λ _ _ k. k) (λ _ _ k. k) (update_rows-Triple db _ test change)))
      λ count.
        weaken (λ s c. c) (λ _ _ k. k) (λ _ _ k. k)
          (settle-Triple db _ test change Error.profile_not_found count)

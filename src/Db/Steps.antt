-- ===== src/Db/Steps.antt =====
-- What one user may do to the table of profiles, as a relation between two contents of the
-- table: change or remove rows of the user's own, and add a row of the user's own under a new
-- identifier. A changed row keeps its identifier, its owner and its time of creation.
use api_free_demo.Base.{◌≡◌, refl, ◌∙◌, false, not, List, [], ◌∷◌, ◌++◌, arith, filter, ◌==◌}
use api_free_demo.Profile.{Uuid, Profile}
use api_free_demo.Db.Profiles.{has_profile}

-- A row and what became of it
pub record IsRevision (u : Uuid) (p q : Profile) : Type 0 where
  pub owner : p.user_id ≡ u
  pub same_id : q.id ≡ p.id
  pub same_owner : q.user_id ≡ p.user_id
  pub same_creation : q.created_at ≡ p.created_at

pub data Edit (u : Uuid) : List Profile → List Profile → Type 0 where
  done : Edit u [] []
  keep : (p : Profile) {ps qs : List Profile} → Edit u ps qs → Edit u (p ∷ ps) (p ∷ qs)
  revise :
      (p q : Profile) {ps qs : List Profile}
      → IsRevision u p q
      → Edit u ps qs
      → Edit u (p ∷ ps) (q ∷ qs)
  remove : (p : Profile) {ps qs : List Profile} → p.user_id ≡ u → Edit u ps qs → Edit u (p ∷ ps) qs

pub data Step (u : Uuid) (ps : List Profile) : List Profile → Type 0 where
  edit : {qs : List Profile} → Edit u ps qs → Step u ps qs
  add : (p : Profile) → p.user_id ≡ u → has_profile p.id ps ≡ false → Step u ps (ps ++ p ∷ [])

pub data Steps (u : Uuid) (ps : List Profile) : List Profile → Type 0 where
  here : Steps u ps ps
  next : {qs rs : List Profile} → Steps u ps qs → Step u qs rs → Steps u ps rs

pub Steps-trans :
    (u : Uuid) {ps qs rs : List Profile} → Steps u ps qs → Steps u qs rs → Steps u ps rs
Steps-trans u s here = s
Steps-trans u s (next t st) = next (Steps-trans u s t) st

pub one : (u : Uuid) {ps qs : List Profile} → Step u ps qs → Steps u ps qs
one u s = next here s

-- The rows of everybody else
abbrev pub others : Uuid → List Profile → List Profile
others u rows = filter (λ (p : Profile). not (p.user_id == u)) rows

Edit-others : (u : Uuid) {ps qs : List Profile} → Edit u ps qs → others u qs ≡ others u ps
Edit-others u done = refl
Edit-others u (keep p e) = ground (arith, Edit-others u e)
Edit-others u (revise p q r e) = ground (arith, r.owner, r.same_owner, Edit-others u e)
Edit-others u (remove p o e) = ground (arith, Edit-others u e)

add-others :
    (u : Uuid) (ps : List Profile) (p : Profile)
    → p.user_id ≡ u
    → others u (ps ++ p ∷ []) ≡ others u ps
add-others u [] p h = ground arith
add-others u (q ∷ ps) p h = ground (arith, add-others u ps p h)

-- The rows of everybody else stay as they are, in their order.
pub Steps-others : (u : Uuid) {ps qs : List Profile} → Steps u ps qs → others u qs ≡ others u ps
Steps-others u here = refl
Steps-others u (next s (edit e)) = Edit-others u e ∙ Steps-others u s
Steps-others u (next {qs} s (add p o f)) = add-others u qs p o ∙ Steps-others u s

-- No two rows have the same identifier.
abbrev pub HasUniqueIds : List Profile → Type 0
HasUniqueIds [] = Unit
HasUniqueIds (p ∷ ps) = (has_profile p.id ps ≡ false) × HasUniqueIds ps

-- An edit brings in no identifier.
Edit-has_profile :
    (u : Uuid) (id : Uuid) {ps qs : List Profile}
    → Edit u ps qs
    → has_profile id ps ≡ false
    → has_profile id qs ≡ false
Edit-has_profile u id done h = refl
Edit-has_profile u id (keep p e) h = ground (arith, Edit-has_profile u id e)
Edit-has_profile u id (revise p q r e) h = ground (arith, r.same_id, Edit-has_profile u id e)
Edit-has_profile u id (remove p o e) h = ground (arith, Edit-has_profile u id e)

Edit-HasUniqueIds :
    (u : Uuid) {ps qs : List Profile} → Edit u ps qs → HasUniqueIds ps → HasUniqueIds qs
Edit-HasUniqueIds u done h = tt
Edit-HasUniqueIds u (keep p e) h = (Edit-has_profile u p.id e h.0, Edit-HasUniqueIds u e h.1)
Edit-HasUniqueIds u (revise p q r e) h =
    (rw r.same_id (Edit-has_profile u p.id e h.0), Edit-HasUniqueIds u e h.1)
Edit-HasUniqueIds u (remove p o e) h = Edit-HasUniqueIds u e h.1

has_profile-append :
    (id : Uuid) (ps : List Profile) (p : Profile)
    → has_profile id ps ≡ false
    → (p.id == id) ≡ false
    → has_profile id (ps ++ p ∷ []) ≡ false
has_profile-append id [] p h k = ground arith
has_profile-append id (q ∷ ps) p h k = ground (arith, has_profile-append id ps p)

add-HasUniqueIds :
    (ps : List Profile) (p : Profile)
    → has_profile p.id ps ≡ false
    → HasUniqueIds ps
    → HasUniqueIds (ps ++ p ∷ [])
add-HasUniqueIds [] p f h = (refl, tt)
add-HasUniqueIds (q ∷ ps) p f h =
    (has_profile-append q.id ps p h.0 (ground arith), add-HasUniqueIds ps p (ground arith) h.1)

pub Steps-HasUniqueIds :
    (u : Uuid) {ps qs : List Profile} → Steps u ps qs → HasUniqueIds ps → HasUniqueIds qs
Steps-HasUniqueIds u here h = h
Steps-HasUniqueIds u (next s (edit e)) h = Edit-HasUniqueIds u e (Steps-HasUniqueIds u s h)
Steps-HasUniqueIds u (next {qs} s (add p o f)) h =
    add-HasUniqueIds qs p f (Steps-HasUniqueIds u s h)

-- ===== src/Profile/Interface.antt =====
-- internal/domain/profile/repository.go: what the service asks of the persistence layer, over a
-- state of type `S`. The methods that read the clock take the time that they read first.
use api_free_demo.Base.{ℕ, Bool, Option, List, ℤ}
use api_free_demo.Base.Outcome.{M}
use api_free_demo.Time.{Time}
use api_free_demo.Profile.Model.{Uuid, Profile, Fields, Filter}

pub record Repository (S : Type 0) : Type 0 where
  pub create : Profile → M S (Unit {0})
  pub bulk_create : List Profile → M S (Unit {0})
  pub update : Profile → M S (Unit {0})
  pub patch : Time → Uuid → Uuid → Fields → ℤ → M S Profile
  pub delete : Time → Uuid → Uuid → Bool → ℤ → M S (Unit {0})
  pub bulk_delete : Time → Uuid → List Uuid → Bool → M S ℕ
  pub get_by_id : Uuid → Uuid → M S (Option Profile)
  pub list : Filter → M S (List Profile × ℕ)

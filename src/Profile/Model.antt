-- ===== src/Profile/Model.antt =====
-- The data of internal/domain/profile/model.go, with the validation tags as a function of each
-- request.
use api_free_demo.Base.{ℕ, Bool, Option, none, some, List, [], ◌∷◌, ◌++◌, Text, codes, ℤ}
use api_free_demo.Base.Outcome.{Error}
use api_free_demo.Time.{Time}
use api_free_demo.Validation.{
  Validator, Failures, required, pointer_url, pointer_date, not_negative, verdict,
}

-- `uuid.UUID`; `uuid.Nil` is 0.
abbrev pub Uuid : Type 0
Uuid = ℕ

pub record Profile : Type 0 where
  pub id : Uuid
  pub user_id : Uuid
  pub first_name : Text
  pub last_name : Text
  pub bio : Option Text
  pub profile_image : Option Text
  pub cover_image : Option Text
  pub date_of_birth : Option Time
  pub phone : Option Text
  pub website : Option Text
  pub location : Option Text
  pub created_at : Time
  pub updated_at : Time
  pub deleted_at : Option Time
  pub version : ℤ

pub record CreateRequest : Type 0 where
  pub first_name : Text
  pub last_name : Text
  pub bio : Option Text
  pub profile_image : Option Text
  pub cover_image : Option Text
  pub date_of_birth : Option Text
  pub phone : Option Text
  pub website : Option Text
  pub location : Option Text

-- The embedded request, and the version that the client has read.
pub record UpdateRequest : Type 0 where
  pub create : CreateRequest
  pub version : ℤ

-- A decoded JSON value; `other` stands for arrays, objects and fractions.
pub data Value : Type 0 where
  null other : Value
  str : Text → Value
  num : ℤ → Value
  bool : Bool → Value

abbrev pub Fields : Type 0
Fields = List (Text × Value)

-- `Fields` is a Go map: `none` is the `nil` map.
pub record PatchRequest : Type 0 where
  pub fields : Option Fields
  pub version : ℤ

pub record Filter : Type 0 where
  pub search : Text
  pub limit : ℕ
  pub offset : ℕ
  pub cursor : Text
  pub cursor_time : Option Time
  pub user_id : Uuid

pub record BulkCreateRequest : Type 0 where
  pub profiles : List CreateRequest

pub record BulkDeleteRequest : Type 0 where
  pub ids : List Uuid
  pub hard : Bool
  pub reason : Text

-- The tags of `CreateRequest`
unfoldable pub create_failures : Validator → CreateRequest → Failures
create_failures v r =
    required (codes "FirstName") r.first_name
    ++ required (codes "LastName") r.last_name
    ++ pointer_url v (codes "ProfileImage") r.profile_image
    ++ pointer_url v (codes "CoverImage") r.cover_image
    ++ pointer_date (codes "DateOfBirth") r.date_of_birth
    ++ pointer_url v (codes "Website") r.website

unfoldable pub validate_create : Validator → CreateRequest → Option Error
unfolding create_failures
validate_create v r = verdict (create_failures v r)

-- The tags of `UpdateRequest`, those of the embedded request first
unfoldable pub validate_update : Validator → UpdateRequest → Option Error
unfolding create_failures
validate_update v r =
    verdict (create_failures v r.create ++ not_negative (codes "Version") r.version)

-- `required` on a map: it is not `nil`.
abbrev pub required_map : Option Fields → Failures
required_map none = (codes "Fields", codes "required") ∷ []
required_map (some _) = []

-- The tags of `PatchRequest`
unfoldable pub validate_patch : PatchRequest → Option Error
validate_patch r = verdict (required_map r.fields ++ not_negative (codes "Version") r.version)

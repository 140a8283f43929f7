-- ===== src/Profile/Payloads.antt =====
-- internal/domain/profile/service.go: what the methods make of the payloads, before the repository
-- is asked.
use api_free_demo.Base.{
  ℕ, suc, ◌⊎◌, inl, inr, Bool, Option, none, some, List, [], ◌∷◌, Text, codes, text_eq, pos,
  increment, any, if◌then◌else◌,
}
use api_free_demo.Base.Outcome.{Error, M, pure, fail}
use api_free_demo.Strings.{trim_space}
use api_free_demo.Time.{Time, parse_date}
use api_free_demo.Validation.{Validator}
use api_free_demo.Profile.Model.{
  Uuid, Profile, CreateRequest, UpdateRequest, Value, Fields, validate_create,
}

-- `policy.Sanitize`, of the HTML sanitizer.
abbrev pub Policy : Type 0
Policy = Text → Text

-- `sanitizeField`
unfoldable pub sanitize_field : Policy → Text → Text
sanitize_field policy val = trim_space (policy val)

-- A pointer field of the request, if set, replaces the field of the profile.
abbrev pub or_keep {ℓ} : {A : Type ℓ} → Option A → Option A → Option A
or_keep none old = old
or_keep (some new) old = some new

-- The same, for a field that is cleaned.
abbrev pub clean_or_keep : Policy → Option Text → Option Text → Option Text
clean_or_keep policy none old = old
clean_or_keep policy (some new) old = some (sanitize_field policy new)

-- The date of birth after `assignOptionalFields`; `none` is its parse error.
abbrev pub assign_date : Option Text → Option Time → Option (Option Time)
assign_date none old = some old
assign_date (some []) old = some old
assign_date (some (c ∷ s)) old = elim (parse_date (c ∷ s)) [ none ↦ none | some t ↦ some (some t) ]

abbrev pub bad_date : Error
bad_date = Error.message (codes "invalid date_of_birth")

-- `assignOptionalFields`; `none` is the error `invalid date_of_birth`.
unfoldable pub assign_optional_fields : Policy → Profile → CreateRequest → Option Profile
assign_optional_fields policy p req = elim (assign_date req.date_of_birth p.date_of_birth) [
  | none ↦ none
  | some date ↦ some (record p {
    bio = clean_or_keep policy req.bio p.bio;
    profile_image = or_keep req.profile_image p.profile_image;
    cover_image = or_keep req.cover_image p.cover_image;
    date_of_birth = date;
    phone = clean_or_keep policy req.phone p.phone;
    website = or_keep req.website p.website;
    location = clean_or_keep policy req.location p.location;
  })
]

-- The literal that `Create` and `BulkCreate` start from.
unfoldable pub new_profile : Policy → Time → Uuid → Uuid → CreateRequest → Profile
new_profile policy now id user_id req = record {
  id = id;
  user_id = user_id;
  first_name = sanitize_field policy req.first_name;
  last_name = sanitize_field policy req.last_name;
  bio = none;
  profile_image = none;
  cover_image = none;
  date_of_birth = none;
  phone = none;
  website = none;
  location = none;
  created_at = now;
  updated_at = now;
  deleted_at = none;
  version = pos 1;
}

abbrev pub or_bad_date : {S : Type 0} → Option Profile → M S Profile
or_bad_date none = fail bad_date
or_bad_date (some p) = pure p

-- The whitelist of `Patch`
abbrev pub allowed : List Text
allowed =
    codes "first_name"
    ∷ codes "last_name"
    ∷ codes "bio"
    ∷ codes "profile_image"
    ∷ codes "cover_image"
    ∷ codes "date_of_birth"
    ∷ codes "phone"
    ∷ codes "website"
    ∷ codes "location"
    ∷ []

unfoldable pub is_allowed : Text → Bool
is_allowed k = any (text_eq k) allowed

-- A text is cleaned, any other value is passed on.
unfoldable pub clean_value : Policy → Value → Value
clean_value policy (Value.str s) = Value.str (sanitize_field policy s)
clean_value policy v = v

-- The loop of `Patch` over the fields of the request
unfoldable pub patch_update : Policy → Fields → Fields
unfolding is_allowed
patch_update policy [] = []
patch_update policy ((k, v) ∷ fields) =
    if is_allowed k
    then (k, clean_value policy v) ∷ patch_update policy fields
    else patch_update policy fields

abbrev pub fields_of : Option Fields → Fields
fields_of none = []
fields_of (some fields) = fields

-- What becomes of a payload of `BulkCreate`, by the validator's error and the profile if its
-- date parses: the profile, or the error for its place.
abbrev pub item_of : Option Error → Option Profile → Profile ⊎ Error
item_of (some e) p = inr e
item_of none none = inr bad_date
item_of none (some p) = inl p

unfoldable pub bulk_item : Validator → Policy → Time → Uuid → Uuid → CreateRequest → Profile ⊎ Error
bulk_item v policy now id user_id req =
    item_of (validate_create v req)
      (assign_optional_fields policy (new_profile policy now id user_id req) req)

-- The profiles so far, and an error or `nil` for each payload
abbrev pub add_item :
    Profile ⊎ Error → List Profile × List (Option Error) → List Profile × List (Option Error)
add_item (inl p) (profiles, errs) = (p ∷ profiles, none ∷ errs)
add_item (inr e) (profiles, errs) = (profiles, some e ∷ errs)

-- The loop of `BulkCreate`. The i-th payload reads the i-th time and identifier of the two
-- streams.
unfoldable pub bulk_items :
    Validator
    → Policy
    → (ℕ → Time)
    → (ℕ → Uuid)
    → Uuid
    → ℕ
    → List CreateRequest
    → List Profile × List (Option Error)
unfolding bulk_item
bulk_items v policy now id user_id i [] = ([], [])
bulk_items v policy now id user_id i (req ∷ reqs) =
    add_item (bulk_item v policy (now i) (id i) user_id req)
      (bulk_items v policy now id user_id (suc i) reqs)

-- `profile.Version++` and the new `UpdatedAt`
abbrev pub renewed : Time → Profile → Profile
renewed now q = record q { version = increment q.version; updated_at = now }

-- What `Update` writes into the profile that it has read
unfoldable pub updated : Policy → Time → UpdateRequest → Profile → Option Profile
updated policy now req p =
    elim (assign_optional_fields policy
      (record p {
        first_name = sanitize_field policy req.create.first_name;
        last_name = sanitize_field policy req.create.last_name;
      })
      req.create) [ none ↦ none | some q ↦ some (renewed now q) ]

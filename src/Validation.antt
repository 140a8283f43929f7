-- ===== src/Validation.antt =====
-- The rules that the `validate` tags of the request types name. A check lists what fails, a field
-- with the rule that it breaks. What an e-mail address or a URL is, the validator decides.
use api_free_demo.Base.{
  ℕ, Bool, true, false, Option, none, some, List, [], ◌∷◌, Text, codes, length, leb, if◌then◌else◌,
  ℤ, pos, negsuc,
}
use api_free_demo.Base.Outcome.{Error}
use api_free_demo.Time.{parse_date}

-- The third-party checks.
pub record Validator : Type 0 where
  pub email : Text → Bool
  pub url : Text → Bool

abbrev pub Failures : Type 0
Failures = List (Text × Text)

-- One rule at one field.
abbrev pub rule : Text → Text → Bool → Failures
rule field tag true = []
rule field tag false = (field, tag) ∷ []

abbrev pub is_some {ℓ} : {A : Type ℓ} → Option A → Bool
is_some none = false
is_some (some _) = true

abbrev pub non_empty {ℓ} : {A : Type ℓ} → List A → Bool
non_empty [] = false
non_empty (_ ∷ _) = true

-- `required` on a string
abbrev pub required : Text → Text → Failures
required field s = rule field (codes "required") (non_empty s)

-- `required,min=n` on a string: the first broken rule is reported, and `min` counts runes.
abbrev pub required_min : Text → ℕ → Text → Failures
required_min field n s =
    if non_empty s then rule field (codes "min") (leb n (length s)) else required field s

-- `required,email`
abbrev pub required_email : Validator → Text → Text → Failures
required_email v field s =
    if non_empty s then rule field (codes "email") (v.email s) else required field s

-- `omitempty,url` on a string: the empty one passes.
abbrev pub optional_url : Validator → Text → Text → Failures
optional_url v field s = rule field (codes "url") (if non_empty s then v.url s else true)

-- `omitempty,url` on a pointer: `nil` passes, anything that it points to is checked.
abbrev pub pointer_url : Validator → Text → Option Text → Failures
pointer_url v field none = []
pointer_url v field (some s) = rule field (codes "url") (v.url s)

-- `omitempty,datetime=2006-01-02` on a pointer
abbrev pub pointer_date : Text → Option Text → Failures
pointer_date field none = []
pointer_date field (some s) = rule field (codes "datetime") (is_some (parse_date s))

-- `gte=0`
abbrev pub not_negative : Text → ℤ → Failures
not_negative field (pos _) = []
not_negative field (negsuc _) = (field, codes "gte") ∷ []

-- `validator.Struct`: an error exactly when a rule is broken.
abbrev pub verdict : Failures → Option Error
verdict [] = none
verdict (f ∷ fs) = some (Error.validation (f ∷ fs))

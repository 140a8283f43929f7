-- ===== src/Config/Read.antt =====
-- The readers of internal/config/config.go. The environment, with what the `.env` file has added
-- to it, is a function; an unset variable is the empty text.
use api_free_demo.Base.{
  ℕ, ◌==◌, Bool, Option, none, some, List, [], ◌∷◌, ◌++◌, Text, ℤ, if◌then◌else◌,
}
use api_free_demo.Strings.{trim_space}
use api_free_demo.Strings.Atoi.{atoi, parse_bool}

abbrev pub Env : Type 0
Env = Text → Text

abbrev pub or_default : Text → Text → Text
or_default [] def = def
or_default (c ∷ s) def = c ∷ s

-- `getenv`
unfoldable pub getenv : Env → Text → Text → Text
getenv env key def = or_default (trim_space (env key)) def

abbrev pub or_value {ℓ} : {A : Type ℓ} → Option A → A → A
or_value none def = def
or_value (some a) def = a

-- What `getInt`, `getBool` and `getFloat` have in common: a parser on the text that is set
abbrev pub parsed {ℓ} : {A : Type ℓ} → (Text → Option A) → Text → A → A
parsed parse [] def = def
parsed parse (c ∷ s) def = or_value (parse (c ∷ s)) def

-- `getInt`
unfoldable pub get_int : Env → Text → ℤ → ℤ
get_int env key def = parsed atoi (trim_space (env key)) def

-- `getBool`
unfoldable pub get_bool : Env → Text → Bool → Bool
get_bool env key def = parsed parse_bool (trim_space (env key)) def

-- `getFloat`, over `strconv.ParseFloat`
unfoldable pub get_float : {F : Type 0} → (Text → Option F) → Env → Text → F → F
get_float parse_float env key def = parsed parse_float (trim_space (env key)) def

abbrev pub longer : ℕ → List Text → List Text
longer c [] = (c ∷ []) ∷ []
longer c (part ∷ parts) = (c ∷ part) ∷ parts

-- `strings.Split(val, ",")`: at least one part
unfoldable pub split_commas : Text → List Text
split_commas [] = [] ∷ []
split_commas (c ∷ s) = let rest = split_commas s in if c == b',' then [] ∷ rest else longer c rest

abbrev pub keep_part : Text → List Text → List Text
keep_part [] out = out
keep_part (c ∷ s) out = (c ∷ s) ∷ out

-- The loop of `splitAndTrim`
unfoldable pub trim_parts : List Text → List Text
trim_parts [] = []
trim_parts (p ∷ parts) = keep_part (trim_space p) (trim_parts parts)

-- `splitAndTrim`; the `nil` slice is the empty list.
unfoldable pub split_and_trim : Text → List Text
unfolding split_commas trim_parts
split_and_trim [] = []
split_and_trim (c ∷ s) = trim_parts (split_commas (c ∷ s))

-- `strings.Join`
unfoldable pub join : Text → List Text → Text
join sep [] = []
join sep (x ∷ []) = x
join sep (x ∷ y ∷ ys) = x ++ (sep ++ join sep (y ∷ ys))

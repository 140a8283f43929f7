-- ===== src/Http/Query.antt =====
-- The query parameters: `GetLimit` and `GetOffset` of pkg/response/response.go, and
-- `parseVersion` of internal/domain/profile/handler.go.
use api_free_demo.Base.{
  ℕ, zero, suc, ◌&&◌, Option, none, some, Text, ltb, ℤ, pos, negsuc, if◌then◌else◌,
}
use api_free_demo.Strings.Atoi.{atoi}

abbrev pub limit_of : ℕ → ℕ → Option ℤ → ℕ
limit_of fallback most none = fallback
limit_of fallback most (some (negsuc n)) = fallback
limit_of fallback most (some (pos zero)) = fallback
limit_of fallback most (some (pos (suc n))) = if ltb 0 most && ltb most (suc n) then most else suc n

-- `GetLimit`, of the value of the parameter (the empty text where there is none)
unfoldable pub get_limit : ℕ → ℕ → Text → ℕ
unfolding atoi
get_limit fallback most value = limit_of fallback most (atoi value)

abbrev pub offset_of : Option ℤ → ℕ
offset_of none = 0
offset_of (some (pos n)) = n
offset_of (some (negsuc n)) = 0

-- `GetOffset`
unfoldable pub get_offset : Text → ℕ
unfolding atoi
get_offset value = offset_of (atoi value)

abbrev pub version_of : Option ℤ → ℤ
version_of none = pos 0
version_of (some z) = z

-- `parseVersion`
unfoldable pub parse_version : Text → ℤ
unfolding atoi
parse_version value = version_of (atoi value)

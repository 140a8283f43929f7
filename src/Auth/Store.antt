-- ===== src/Auth/Store.antt =====
-- Where the manager keeps the refresh tokens that are good: in memory, or in Redis.
use api_free_demo.Base.{
  ℕ, Option, none, some, ◌⊎◌, inl, inr, List, [], ◌∷◌, ◌++◌, Text, codes, text_eq, if◌then◌else◌,
}
use api_free_demo.Base.Outcome.{Error, ok, err, M}

-- The Redis client, over the state of the server: each command returns an error or answers.
pub record Redis (R : Type 0) : Type 0 where
  pub set : Text → Text → ℕ → R → Option Text × R
  pub get : Text → R → (Text ⊎ Text) × R
  pub del : Text → R → Option Text × R

-- `m.redis`, `nil` or a client
pub data Backend (R : Type 0) : Type 0 where
  memory : Backend R
  redis : Redis R → Backend R

-- The map `memoryTokens`, and the state of the Redis server
pub record Tokens (R : Type 0) : Type 0 where
  pub memory_tokens : List (Text × Text)
  pub remote : R

-- `sync.Map.Load`, `Store` and `Delete`
unfoldable pub load : Text → List (Text × Text) → Option Text
load k [] = none
load k ((j, v) ∷ m) = if text_eq k j then some v else load k m

unfoldable pub store : Text → Text → List (Text × Text) → List (Text × Text)
store k v [] = (k, v) ∷ []
store k v ((j, w) ∷ m) = if text_eq k j then (k, v) ∷ m else (j, w) ∷ store k v m

unfoldable pub delete : Text → List (Text × Text) → List (Text × Text)
delete k [] = []
delete k ((j, w) ∷ m) = if text_eq k j then delete k m else (j, w) ∷ delete k m

-- `refreshKey`
abbrev pub refresh_key : Text → Text
refresh_key id = codes "refresh:" ++ id

module _ {R : Type 0} where
  abbrev pub replied : {A : Type 0} → (Text ⊎ A) × R → M (Tokens R) A
  replied (inl e, r) s = err (Error.message e) (record s { remote = r })
  replied (inr a, r) s = ok a (record s { remote = r })

  abbrev pub acknowledged : Option Text × R → M (Tokens R) (Unit {0})
  acknowledged (none, r) s = ok tt (record s { remote = r })
  acknowledged (some e, r) s = err (Error.message e) (record s { remote = r })

  abbrev pub loaded : Option Text → M (Tokens R) Text
  loaded none s = err (Error.message (codes "refresh token missing")) s
  loaded (some v) s = ok v s

  -- The two branches of `persistRefresh`, `ensureRefreshValid` and `revoke`
  unfoldable pub put : Backend R → Text → Text → ℕ → M (Tokens R) (Unit {0})
  put memory key token ttl s = ok tt (record s { memory_tokens = store key token s.memory_tokens })
  put (redis client) key token ttl s = acknowledged (client.set key token ttl s.remote) s

  unfoldable pub find : Backend R → Text → M (Tokens R) Text
  find memory key s = loaded (load key s.memory_tokens) s
  find (redis client) key s = replied (client.get key s.remote) s

  unfoldable pub remove : Backend R → Text → M (Tokens R) (Unit {0})
  remove memory key s = ok tt (record s { memory_tokens = delete key s.memory_tokens })
  remove (redis client) key s = acknowledged (client.del key s.remote) s

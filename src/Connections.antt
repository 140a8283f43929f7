-- ===== src/Connections.antt =====
-- The connections of the server: internal/infrastructure/db/db.go and
-- internal/infrastructure/redis/client.go, over the clients of sqlx and Redis. Warnings to the
-- logger and the time limits of the pings are left out.
pub mod Laws
pub mod Handles
mod Tests
use api_free_demo.Base.{
  ℕ, Bool, true, false, Option, none, some, [], ◌∷◌, ◌++◌, Text, codes, text_eq, ◌==◌, ℤ,
  if◌then◌else◌,
}
use api_free_demo.Base.Outcome.{Error, Outcome, ok, err, M, state_of, pure, ◌>>=◌, ◌>>◌}
use api_free_demo.Config.{DatabaseConfig, RedisConfig}

-- What the program uses of `sqlx`, over the state of its pools. A handle is a number; two handles
-- are the same pointer where the numbers are.
pub record Sqlx (W : Type 0) : Type 0 where
  pub open_pool : (driver dsn : Text) → M W ℕ
  pub set_max_open_conns : ℕ → ℤ → W → W
  pub set_max_idle_conns : ℕ → ℤ → W → W
  pub set_conn_max_lifetime : ℕ → ℤ → W → W
  pub ping : ℕ → M W (Unit {0})
  pub close : ℕ → M W (Unit {0})

pub record Manager : Type 0 where
  pub write : ℕ
  pub read : ℕ

-- `fmt.Errorf("…: %w", err)`
abbrev pub wrap : Text → Error → Error
wrap prefix (Error.message text) = Error.message (prefix ++ text)
wrap prefix e = e

abbrev pub wrapped : {W A : Type 0} → Text → Outcome W A → Outcome W A
wrapped prefix (ok a w) = ok a w
wrapped prefix (err e w) = err (wrap prefix e) w

-- The name that the driver of `pgx` is registered under
abbrev pub driver_name : Text → Text
driver_name driver = if text_eq driver (codes "postgres") then codes "pgx" else driver

module _ {W : Type 0} (sql : Sqlx W) where
  -- The three settings of a pool
  abbrev pub configure : DatabaseConfig → ℕ → W → W
  configure cfg handle w = sql.set_conn_max_lifetime handle cfg.conn_max_lifetime (
      sql.set_max_idle_conns handle cfg.max_idle_conns
        (sql.set_max_open_conns handle cfg.max_open_conns w))

  abbrev pub open_dsn : DatabaseConfig → Text → M W ℕ
  open_dsn cfg dsn = sql.open_pool (driver_name cfg.driver) dsn

  -- A replica that cannot be reached is closed; the writing handle reads in its place.
  abbrev pub pinged : ℕ → ℕ → Outcome W (Unit {0}) → Outcome W ℕ
  pinged write read (ok done w) = ok read w
  pinged write read (err e w) = ok write (state_of (sql.close read w))

  abbrev pub opened : DatabaseConfig → ℕ → Outcome W ℕ → Outcome W ℕ
  opened cfg write (ok read w) = pinged write read (sql.ping read (configure cfg read w))
  opened cfg write (err e w) = ok write w

  abbrev pub reading : DatabaseConfig → ℕ → Text → M W ℕ
  reading cfg write [] w = ok write w
  reading cfg write (c ∷ s) w = opened cfg write (open_dsn cfg (c ∷ s) w)

  -- `Connect`
  unfoldable pub connect : DatabaseConfig → M W Manager
  connect cfg = do
    write ← λ w. wrapped (codes "open db: ") (open_dsn cfg cfg.dsn w)
    λ w. wrapped (codes "ping db: ") (sql.ping write (configure cfg write w))
    read ← reading cfg write cfg.read_only_dsn
    pure (record { write = write; read = read })

  -- `Manager.Close`; `none` is the `nil` manager.
  unfoldable pub close : Option Manager → M W (Unit {0})
  close none = pure tt
  close (some m) = do sql.close m.write; if m.read == m.write then pure tt else sql.close m.read

-- The options of the Redis client; TLS asks for version 1.2.
pub record Options : Type 0 where
  pub addr : Text
  pub username : Text
  pub password : Text
  pub db : ℤ
  pub min_tls : Option Text

-- The Redis client: a new client, its ping, and its end
pub record RedisDriver (W C : Type 0) : Type 0 where
  pub new_client : Options → W → C × W
  pub ping : C → M W (Unit {0})
  pub close : C → M W (Unit {0})

unfoldable pub options_of : RedisConfig → Options
options_of cfg = record {
  addr = cfg.addr;
  username = cfg.username;
  password = cfg.password;
  db = cfg.db;
  min_tls = if cfg.tls then some (codes "1.2") else none;
}

module _ {W C : Type 0} (redis : RedisDriver W C) where
  abbrev pub checked : C → Outcome W (Unit {0}) → Outcome W C
  checked c (ok done w) = ok c w
  checked c (err e w) = err e w

  -- `Connect` of the Redis package
  unfoldable pub connect_redis : RedisConfig → M W C
  connect_redis cfg w =
      let made = redis.new_client (options_of cfg) w in checked made.0 (redis.ping made.0 made.1)

  -- `Client.Close`; `none` is the `nil` client.
  unfoldable pub close_redis : Option C → M W (Unit {0})
  close_redis none w = ok tt w
  close_redis (some c) w = redis.close c w

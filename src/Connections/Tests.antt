-- ===== src/Connections/Tests.antt =====
-- Connections to small pools: the state is the list of the open handles.
use api_free_demo.Base.{
  ℕ, suc, ◌≡◌, ◌≤◌, ◌<◌, ◌+◌, refl, Bool, true, false, none, some, List, [], ◌∷◌, Text, codes,
  text_eq, pos, ◌==◌, if◌then◌else◌, arith, any, Bool-cases, inl, inr,
}
use api_free_demo.Base
use api_free_demo.Base.Outcome.{Error, Outcome, ok, err}
use api_free_demo.Base.Triple.{Ends}
use api_free_demo.Config.{DatabaseConfig}
use api_free_demo.Connections.{Sqlx, Manager, connect, close}
use api_free_demo.Connections.Laws.{SqlxLaws, without, is_held}
use api_free_demo.Connections.Handles.{close-connect}

abbrev sum : List ℕ → ℕ
sum [] = 0
sum (h ∷ hs) = h + sum hs

-- The source name `down` cannot be opened.
abbrev opened : Text → List ℕ → Outcome (List ℕ) ℕ
opened dsn hs =
    if text_eq dsn (codes "down")
    then err (Error.message (codes "down")) hs
    else ok (suc (sum hs)) (suc (sum hs) ∷ hs)

abbrev toy : Sqlx (List ℕ)
toy = record {
  open_pool = λ driver dsn hs. opened dsn hs;
  set_max_open_conns = λ h n hs. hs;
  set_max_idle_conns = λ h n hs. hs;
  set_conn_max_lifetime = λ h n hs. hs;
  ping = λ h hs. ok tt hs;
  close = λ h hs. ok tt (without h hs);
}

larger : (n : ℕ) (hs : List ℕ) → sum hs < n → is_held n hs ≡ false
larger n [] h = refl
larger n (k ∷ hs) h = ground (arith, larger n hs (omega (arith, h)))

opened-new :
    (dsn : Text) (hs : List ℕ)
    → Ends (λ h hs'. (is_held h hs ≡ false) × (hs' ≡ h ∷ hs)) (λ e hs'. hs' ≡ hs) (opened dsn hs)
opened-new dsn hs = elim (Bool-cases (text_eq dsn (codes "down"))) [
  | inl down ↦ rw down refl
  | inr up ↦ rw up (larger (suc (sum hs)) hs (omega arith), refl)
]

toy-SqlxLaws : SqlxLaws toy (λ hs. hs)
toy-SqlxLaws = record {
  opens = λ driver dsn hs. opened-new dsn hs;
  pings = λ h hs. refl;
  closes = λ h hs. refl;
  max_open = λ h n hs. refl;
  max_idle = λ h n hs. refl;
  lifetime = λ h n hs. refl;
}

abbrev replicated : DatabaseConfig
replicated = record {
  driver = codes "postgres";
  dsn = codes "w";
  read_only_dsn = codes "r";
  max_open_conns = pos 25;
  max_idle_conns = pos 10;
  conn_max_lifetime = pos 0;
  auto_migrate = true;
  prefer_simple_prot = true;
}

abbrev both : Manager
both = record { write = 8; read = 16 }

connect-run : connect toy replicated (7 ∷ []) ≡ ok both (16 ∷ 8 ∷ 7 ∷ [])
unfolding connect Base.text_eq
connect-run = refl

close-run : close toy (some both) (16 ∷ 8 ∷ 7 ∷ []) ≡ ok tt (7 ∷ [])
unfolding close
close-run = refl

-- A replica that cannot be opened: the writing handle reads.
connect-down :
    connect toy (record replicated { read_only_dsn = codes "down" }) (7 ∷ [])
    ≡ ok (record { write = 8; read = 8 }) (8 ∷ 7 ∷ [])
unfolding connect Base.text_eq
connect-down = refl

-- A ping that fails leaves the handle open.
connect-leaks :
    connect
      (record toy { ping = λ h hs. err (Error.message (codes "timeout")) hs })
      replicated
      (7 ∷ [])
    ≡ err (Error.message (codes "ping db: timeout")) (8 ∷ 7 ∷ [])
unfolding connect Base.text_eq
connect-leaks = refl

close-connect_example : ◌≡◌ {A = List ℕ} (7 ∷ []) (7 ∷ [])
close-connect_example =
    close-connect toy (λ hs. hs) toy-SqlxLaws replicated both (7 ∷ []) (16 ∷ 8 ∷ 7 ∷ []) (7 ∷ [])
      connect-run close-run

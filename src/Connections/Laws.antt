-- ===== src/Connections/Laws.antt =====
-- The documented behaviour of `sqlx` on open handles.
use api_free_demo.Base.{
  ℕ, ◌≡◌, refl, Bool, false, not, List, [], ◌∷◌, Text, any, filter, ◌==◌, arith, ℤ,
}
use api_free_demo.Base.Outcome.{state_of}
use api_free_demo.Base.Triple.{Ends}
use api_free_demo.Connections.{Sqlx}

-- The handles without one of them
abbrev pub without : ℕ → List ℕ → List ℕ
without h hs = filter (λ k. not (k == h)) hs

abbrev pub is_held : ℕ → List ℕ → Bool
is_held h hs = any (λ k. k == h) hs

-- The documented behaviour of `sqlx` on the handles that are open: a new handle is another one,
-- a handle that is closed is gone whatever `Close` returns, and nothing else opens or closes one.
pub record SqlxLaws {W : Type 0} (sql : Sqlx W) (handles : W → List ℕ) : Type 0 where
  pub opens :
      (driver dsn : Text) (w : W)
      → Ends
          (λ h w'. (is_held h (handles w) ≡ false) × (handles w' ≡ h ∷ handles w))
          (λ e w'. handles w' ≡ handles w)
          (sql.open_pool driver dsn w)
  pub pings : (h : ℕ) (w : W) → handles (state_of (sql.ping h w)) ≡ handles w
  pub closes : (h : ℕ) (w : W) → handles (state_of (sql.close h w)) ≡ without h (handles w)
  pub max_open : (h : ℕ) (n : ℤ) (w : W) → handles (sql.set_max_open_conns h n w) ≡ handles w
  pub max_idle : (h : ℕ) (n : ℤ) (w : W) → handles (sql.set_max_idle_conns h n w) ≡ handles w
  pub lifetime : (h : ℕ) (n : ℤ) (w : W) → handles (sql.set_conn_max_lifetime h n w) ≡ handles w

without-fresh : (h : ℕ) (hs : List ℕ) → is_held h hs ≡ false → without h hs ≡ hs
without-fresh h [] e = refl
without-fresh h (k ∷ hs) e = ground (arith, without-fresh h hs)

pub without-head : (h : ℕ) (hs : List ℕ) → is_held h hs ≡ false → without h (h ∷ hs) ≡ hs
without-head h hs e = ground (arith, without-fresh h hs e)

pub without-second :
    (r h : ℕ) (hs : List ℕ)
    → is_held r (h ∷ hs) ≡ false
    → is_held h hs ≡ false
    → without h (r ∷ h ∷ hs) ≡ r ∷ hs
without-second r h hs k e = ground (arith, without-fresh h hs e)

pub tail_free : (r h : ℕ) (hs : List ℕ) → is_held r (h ∷ hs) ≡ false → is_held r hs ≡ false
tail_free r h hs e = ground arith

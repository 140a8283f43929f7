-- ===== src/Connections/Handles.antt =====
-- The handles that are open around `Connect` and `Close`.
use api_free_demo.Base.{
  ℕ, ◌≡◌, ◌⊎◌, refl, sym, ap, ◌∙◌, false, some, List, [], ◌∷◌, Text, codes, ◌==◌, ==_refl,
  if◌then◌else◌, arith, inl, inr,
}
use mathlib.Core.Path.{subst}
use api_free_demo.Base.Outcome.{Error, Outcome, ok, err, state_of, pure, resume}
use api_free_demo.Base.Triple.{Ends, Triple, then_call, ends_ok}
use api_free_demo.Config.{DatabaseConfig}
use api_free_demo.Connections.{
  Sqlx, Manager, wrapped, configure, open_dsn, pinged, opened, reading, connect, close,
}
use api_free_demo.Connections.Laws.{
  SqlxLaws, without, is_held, without-head, without-second, tail_free,
}

-- What a manager holds beside the handles that were there
record Holds (m : Manager) (before now : List ℕ) : Type 0 where
  write_new : is_held m.write before ≡ false
  now_held :
      ((m.read ≡ m.write) × (now ≡ m.write ∷ before))
      ⊎ ((is_held m.read (m.write ∷ before) ≡ false) × (now ≡ m.read ∷ m.write ∷ before))

module _ {W : Type 0} (sql : Sqlx W) (handles : W → List ℕ) (laws : SqlxLaws sql handles)
    (cfg : DatabaseConfig) (before : List ℕ) where
  abbrev Failed : Error → W → Type 0
  Failed e w = Unit

  abbrev Started : W → Type 0
  Started w = handles w ≡ before

  abbrev Writes : ℕ → W → Type 0
  Writes h w = (is_held h before ≡ false) × (handles w ≡ h ∷ before)

  configure-handles : (h : ℕ) (w : W) → handles (configure sql cfg h w) ≡ handles w
  configure-handles h w = laws.lifetime h _ _ ∙ laws.max_idle h _ _ ∙ laws.max_open h _ w

  wrapped-Ends :
      {A : Type 0} (P : A → W → Type 0) (prefix : Text) (o : Outcome W A) (Q : Error → W → Type 0)
      → Ends P Q o
      → Ends P Failed (wrapped prefix o)
  wrapped-Ends P prefix (ok a w) Q h = h
  wrapped-Ends P prefix (err e w) Q h = tt

  opening :
      Triple Started (λ w. wrapped (codes "open db: ") (open_dsn sql cfg cfg.dsn w)) Writes Failed
  opening = record {
    ends = λ w r.
        wrapped-Ends Writes (codes "open db: ") (open_dsn sql cfg cfg.dsn w)
          (λ e w'. handles w' ≡ before)
          (subst
            (λ hs.
              Ends (λ h w'. (is_held h hs ≡ false) × (handles w' ≡ h ∷ hs))
                (λ e w'. handles w' ≡ hs) (open_dsn sql cfg cfg.dsn w))
            r (laws.opens _ cfg.dsn w));
  }

  after_ping :
      (h : ℕ) (o : Outcome W (Unit {0}))
      → is_held h before ≡ false
      → handles (state_of o) ≡ h ∷ before
      → Ends (λ _. Writes h) Failed (wrapped (codes "ping db: ") o)
  after_ping h (ok done w) new e = (new, e)
  after_ping h (err x w) new e = tt

  pinging :
      (h : ℕ)
      → Triple
          (Writes h)
          (λ w. wrapped (codes "ping db: ") (sql.ping h (configure sql cfg h w)))
          (λ _. Writes h)
          Failed
  pinging h = record {
    ends = λ w r.
        after_ping h (sql.ping h (configure sql cfg h w)) r.0
          (laws.pings h (configure sql cfg h w) ∙ configure-handles h w ∙ r.1);
  }

  abbrev Balanced : ℕ → ℕ → W → Type 0
  Balanced write read w = Holds (record { write = write; read = read }) before (handles w)

  alone : (h : ℕ) (w : W) → Writes h w → Balanced h h w
  alone h w r = record { write_new = r.0; now_held = inl (refl, r.1) }

  replica_pinged :
      (h r : ℕ) (o : Outcome W (Unit {0}))
      → is_held h before ≡ false
      → is_held r (h ∷ before) ≡ false
      → handles (state_of o) ≡ r ∷ h ∷ before
      → Ends (Balanced h) Failed (pinged sql h r o)
  replica_pinged h r (ok done w) new other e = record { write_new = new; now_held = inr (other, e) }
  replica_pinged h r (err x w) new other e =
      alone h _ (new, laws.closes r w ∙ ap (without r) e ∙ without-head r (h ∷ before) other)

  replica_opened :
      (h : ℕ) (o : Outcome W ℕ)
      → is_held h before ≡ false
      → Ends
          (λ r w. (is_held r (h ∷ before) ≡ false) × (handles w ≡ r ∷ h ∷ before))
          (λ e w. handles w ≡ h ∷ before)
          o
      → Ends (Balanced h) Failed (opened sql cfg h o)
  replica_opened h (ok r w) new e =
      replica_pinged h r (sql.ping r (configure sql cfg r w)) new e.0
        (laws.pings r (configure sql cfg r w) ∙ configure-handles r w ∙ e.1)
  replica_opened h (err x w) new e = alone h w (new, e)

  replica :
      (h : ℕ) (dsn : Text) (w : W) → Writes h w → Ends (Balanced h) Failed (reading sql cfg h dsn w)
  replica h [] w r = alone h w r
  replica h (c ∷ s) w r = replica_opened h (open_dsn sql cfg (c ∷ s) w) r.0 (
      subst
        (λ hs.
          Ends (λ r w'. (is_held r hs ≡ false) × (handles w' ≡ r ∷ hs)) (λ e w'. handles w' ≡ hs)
            (open_dsn sql cfg (c ∷ s) w))
        r.1 (laws.opens _ (c ∷ s) w))

  reading_on : (h : ℕ) → Triple (Writes h) (reading sql cfg h cfg.read_only_dsn) (Balanced h) Failed
  reading_on h = record { ends = replica h cfg.read_only_dsn }

  connect-Triple : Triple Started (connect sql cfg) (λ m w. Holds m before (handles w)) Failed
  unfolding connect
  connect-Triple = then_call opening λ write.
      then_call (pinging write) λ _. then_call (reading_on write) λ read. record { ends = λ w h. h }

  result_of : (o : Outcome W (Unit {0})) (w : W) → o ≡ ok tt w → state_of o ≡ w
  result_of o w e = ap state_of e

  module _ (m : Manager) (w' w'' : W) (holds : Holds m before (handles w')) where
    -- The end of `Close`, after the writing handle
    closed_rest :
        (w : W)
        → handles w ≡ without m.write (handles w')
        → (if m.read == m.write then pure tt else sql.close m.read) w ≡ ok tt w''
        → handles w'' ≡ before
    closed_rest w gone e = elim holds.now_held [
      | inl (same, now) ↦
          ap handles (sym (result_of _ w'' (shared same ∙ e)))
          ∙ gone
          ∙ ap (without m.write) now
          ∙ without-head m.write before holds.write_new
      | inr (other, now) ↦
          ap handles (sym (result_of _ w'' (apart other ∙ e)))
          ∙ laws.closes m.read w
          ∙ ap (without m.read) (
              gone
              ∙ ap (without m.write) now
              ∙ without-second m.read m.write before other holds.write_new)
          ∙ without-head m.read before (tail_free m.read m.write before other)
    ]
      where
        shared :
            m.read ≡ m.write → ok tt w ≡ (if m.read == m.write then pure tt else sql.close m.read) w
        shared same = rw (same, ==_refl m.write) refl

        different : is_held m.read (m.write ∷ before) ≡ false → (m.read == m.write) ≡ false
        different other = ground arith

        apart :
            is_held m.read (m.write ∷ before) ≡ false
            → sql.close m.read w ≡ (if m.read == m.write then pure tt else sql.close m.read) w
        apart other = rw (different other) refl

    closed :
        (o : Outcome W (Unit {0}))
        → handles (state_of o) ≡ without m.write (handles w')
        → resume (λ _. if m.read == m.write then pure tt else sql.close m.read) o ≡ ok tt w''
        → handles w'' ≡ before
    closed (ok done w) gone e = closed_rest w gone e
    closed (err x w) gone e = cc

-- With the documented behaviour of `sqlx`: when a manager that `Connect` returned is closed
-- without an error, exactly the handles are open that were open before `Connect`, whether a
-- replica is configured or not, and whether it could be reached or not.
pub close-connect :
    {W : Type 0} (sql : Sqlx W) (handles : W → List ℕ) (laws : SqlxLaws sql handles)
    (cfg : DatabaseConfig) (m : Manager) (w w' w'' : W)
    → connect sql cfg w ≡ ok m w'
    → close sql (some m) w' ≡ ok tt w''
    → handles w'' ≡ handles w
unfolding close
close-connect sql handles laws cfg m w w' w'' connected done =
    closed sql handles laws cfg (handles w) m w' w''
      (ends_ok _ _ connected ((connect-Triple sql handles laws cfg (handles w)).ends w refl))
      (sql.close m.write w') (laws.closes m.write w') done

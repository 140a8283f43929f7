-- ===== src/RateLimit/Remote/Tests.antt =====
-- A server that knows one key at most, and three requests to the limiter over it.
use api_free_demo.Base.{
  pos, ◌≡◌, refl, sym, ap, false, Option, none, some, ◌⊎◌, inl, inr, [], ◌∷◌, codes, ℤ,
}
use api_free_demo.Base.Outcome.{Returns}
use api_free_demo.RateLimit.Remote.{Failure, Client, RedisLimiter, allow_remote, after_requests}
use api_free_demo.RateLimit.Remote.Fresh.{DecrLaws, decremented, fresh_key_denied}

-- The state is the number of the one key; it is the same key in all calls.
abbrev client : Client (Option ℤ)
client = record {
  decr = λ key r. (inr (decremented r), some (decremented r));
  set = λ key z ttl r. (none, some z);
}

inr-inl : (z : ℤ) (x : Failure) → ◌≡◌ {A = Failure ⊎ ℤ} (inr z) (inl x) → ⊥
inr-inl z x e = cc

inr-eq : (z y : ℤ) → ◌≡◌ {A = Failure ⊎ ℤ} (inr z) (inr y) → y ≡ z
inr-eq z y e = cc

client-DecrLaws : DecrLaws client (λ key r. r)
client-DecrLaws = record {
  never_nil = λ key r e. inr-inl _ _ e;
  answers = λ key r z e. (inr-eq _ _ e, ap some (sym (inr-eq _ _ e)));
  fails = λ key r x e. absurd (inr-inl _ _ e);
}

abbrev limiter : RedisLimiter (Option ℤ)
limiter = record { client = client; limit = pos 60; prefix = codes "rl" }

fresh_key_denied_example :
    Returns
      (λ i. i.allowed ≡ false)
      (allow_remote limiter 9
        (codes "::1")
        (after_requests limiter (1 ∷ 2 ∷ []) (codes "::1") none))
fresh_key_denied_example =
    fresh_key_denied limiter (λ key r. r) client-DecrLaws (1 ∷ 2 ∷ []) 9 (codes "::1") none refl

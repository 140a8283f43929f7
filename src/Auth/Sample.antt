-- ===== src/Auth/Sample.antt =====
-- A toy signature for runs of the JWT manager: a token is the name of its key followed by the kind
-- and the identifier of its claims. It satisfies the laws of the JWT library.
use api_free_demo.Base.{
  ℕ, ◌≡◌, ◌≢◌, refl, ◌∙◌, ◌<◌, Bool, true, false, Option, none, some, List, [], ◌∷◌, ◌++◌, Text,
  codes, text_eq, pos, arith, if◌then◌else◌, ◌==◌,
}
use api_free_demo.Base
use api_free_demo.Base.Outcome.{ok}
use api_free_demo.Time.{Time}
use api_free_demo.User.{User, AuthTokens}
use api_free_demo.Auth
use api_free_demo.Auth.{
  Claims, AuthConfig, Jwt, Readings, memory, Tokens, load, refresh_key, issue_tokens,
  refresh_tokens, parse_access_token, access_claims, refresh_claims,
}
use api_free_demo.Auth.Kinds.{JwtLaws}

abbrev pub cfg : AuthConfig
cfg = record {
  access_secret = codes "k";
  refresh_secret = codes "k";
  access_token_ttl = 900000000000;
  refresh_token_ttl = 604800000000000;
  token_issuer = codes "api";
  secret_version = codes "v1";
}

abbrev pub ada : User
ada = record {
  id = 7;
  email = codes "a";
  name = codes "Ada";
  password_hash = codes "h";
  profile_image = none;
  role = codes "user";
  refresh_version = pos 1;
  last_login_at = none;
  password_reset_at = none;
  last_password_hash = codes "";
  created_at = 5;
  updated_at = 5;
  deleted_at = none;
}

abbrev pub at_first : Readings
at_first = record {
  access_time = 0;
  access_id = codes "a1";
  refresh_time = 0;
  refresh_id = codes "r1";
}

abbrev pub at_second : Readings
at_second = record {
  access_time = 0;
  access_id = codes "a2";
  refresh_time = 0;
  refresh_id = codes "r2";
}

abbrev pub no_tokens : Tokens (Unit {0})
no_tokens = record { memory_tokens = []; remote = tt }

-- A text before others
abbrev pub put : Text → Text → Text
put s rest = Base.length s ∷ (s ++ rest)

abbrev pub split : ℕ → Text → Text × Text
split Base.zero s = ([], s)
split (Base.suc n) [] = ([], [])
split (Base.suc n) (c ∷ s) = (c ∷ (split n s).0, (split n s).1)

abbrev pub read : Text → Text × Text
read [] = ([], [])
read (n ∷ s) = split n s

pub split-append : (s rest : Text) → split (Base.length s) (s ++ rest) ≡ (s, rest)
split-append [] rest = refl
split-append (c ∷ s) rest = Base.ap (λ (p : Text × Text). (c ∷ p.0, p.1)) (split-append s rest)

abbrev pub encode : Claims → Text
encode c =
    c.user_id
    ∷ c.expires_at
    ∷ c.issued_at
    ∷ put c.role (put c.secret_ver (put c.token_type (put c.issuer (put c.subject (put c.id [])))))

abbrev pub decode : Text → Option Claims
decode (user_id ∷ expires_at ∷ issued_at ∷ s0) =
    let (role, s1) = read s0 in
    let (secret_ver, s2) = read s1 in
    let (token_type, s3) = read s2 in
    let (issuer, s4) = read s3 in
    let (subject, s5) = read s4 in
    let (id, s6) = read s5 in
    some (record {
      user_id = user_id;
      role = role;
      secret_ver = secret_ver;
      token_type = token_type;
      issuer = issuer;
      subject = subject;
      expires_at = expires_at;
      issued_at = issued_at;
      id = id;
    })
decode _ = none

pub decode-encode : (c : Claims) → decode (encode c) ≡ some c
decode-encode c =
    rw
      (
        split-append c.role,
        split-append c.secret_ver,
        split-append c.token_type,
        split-append c.issuer,
        split-append c.subject,
        split-append c.id [],
      )
      refl

abbrev pub opened : Text → Text → Option Claims
opened t k = if text_eq (read t).0 k then decode (read t).1 else none

abbrev pub timely : Time → Option Claims → Option Claims
timely now none = none
timely now (some c) = if Base.ltb now c.expires_at then some c else none

abbrev pub toy : Jwt
toy = record {
  sign = λ k c. some (put k (encode c));
  is_hmac = λ t. true;
  verified = λ t k now. timely now (opened t k);
  uuid_text = λ u. u ∷ [];
}

pub opened-put : (k : Text) (c : Claims) → opened (put k (encode c)) k ≡ some c
opened-put k c = rw (split-append k (encode c)) (rw (Base.text_eq_refl k) (decode-encode c))

pub ltb-less : (a b : ℕ) → a < b → Base.ltb a b ≡ true
ltb-less a b h = ground arith

pub some-eq : {A : Type 0} (a b : A) → some a ≡ some b → a ≡ b
some-eq a b e = cc

pub toy-JwtLaws : JwtLaws toy
toy-JwtLaws = record {
  header = λ k c t e. refl;
  reads_back = λ k c t now e early.
      rw (← some-eq _ _ e, opened-put k c) (rw (ltb-less now c.expires_at early) refl);
}

pub timely-same : (now : Time) (o : Option Claims) (c : Claims) → timely now o ≡ some c → o ≡ some c
timely-same now none c e = cc
timely-same now (some d) c e = ground arith

-- The payload of a token does not depend on when it is read.
pub toy-payload :
    (t k : Text) (n m : Time) (a b : Claims)
    → toy.verified t k n ≡ some a
    → toy.verified t k m ≡ some b
    → a ≡ b
toy-payload t k n m a b x y = cc (timely-same n (opened t k) a x, timely-same m (opened t k) b y)

abbrev pub pair_of : Readings → AuthTokens
pair_of r =
    Auth.bearer cfg toy {R = Unit {0}} memory
      (put cfg.access_secret (encode (access_claims cfg toy r ada)))
      (put cfg.refresh_secret (encode (refresh_claims cfg toy r ada))) 900

abbrev pub holding : Readings → Tokens (Unit {0})
holding r = record {
  memory_tokens = (refresh_key r.refresh_id, (pair_of r).refresh_token) ∷ [];
  remote = tt;
}

pub issue-run :
    issue_tokens cfg toy memory at_first ada no_tokens ≡ ok (pair_of at_first) (holding at_first)
unfolding issue_tokens Auth.issue_access Auth.issue_refresh Auth.persist_refresh Auth.put Auth.store
    refresh_claims access_claims
issue-run = refl

pub early_refresh : 5 < (refresh_claims cfg toy at_first ada).expires_at
unfolding refresh_claims
early_refresh = omega arith

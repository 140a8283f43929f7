-- ===== src/Db/Search.antt =====
-- The search of the two `List` methods: LIKE between two `%`.
use api_free_demo.Base.{
  ℕ, ◌≡◌, refl, ap, ◌∙◌, Bool, false, ◌&&◌, ◌||◌, [], ◌∷◌, ◌++◌, Text, codes, any, ◌==◌, arith,
}
use api_free_demo.Strings.{lower_rune, to_lower, has_prefix, contains}
use api_free_demo.Db.{any_suffix, next_is, like, matches}

-- A character that stands for others in a pattern, or takes the next one as it is
abbrev pub is_wild : ℕ → Bool
is_wild c = c == b'%' || c == b'_' || c == b'\\'

abbrev pub IsPlain : Text → Type 0
IsPlain s = any is_wild s ≡ false

-- The condition on the tail and the head of a plain text
plain_head : (c : ℕ) (s : Text) → IsPlain (c ∷ s) → is_wild c ≡ false
plain_head c s h = ground arith

IsPlain-tail : (c : ℕ) (s : Text) → IsPlain (c ∷ s) → IsPlain s
IsPlain-tail c s h = ground arith

lower_rune-is_wild : (c : ℕ) → is_wild c ≡ false → is_wild (lower_rune c) ≡ false
unfolding lower_rune
lower_rune-is_wild c h = ground arith

to_lower-IsPlain : (s : Text) → IsPlain s → IsPlain (to_lower s)
unfolding to_lower
to_lower-IsPlain [] h = refl
to_lower-IsPlain (c ∷ s) h =
    rw (lower_rune-is_wild c (plain_head c s h)) (to_lower-IsPlain s (IsPlain-tail c s h))

to_lower-append : (s t : Text) → to_lower (s ++ t) ≡ to_lower s ++ to_lower t
unfolding to_lower
to_lower-append [] t = refl
to_lower-append (c ∷ s) t = ap (λ r. lower_rune c ∷ r) (to_lower-append s t)

-- One plain character in front of a pattern
like-plain :
    (c : ℕ) (p : ℕ) (ps : Text)
    → is_wild c ≡ false
    → like (c ∷ p ∷ ps) ≡ next_is (λ d. d == c) (like (p ∷ ps))
unfolding like
like-plain c p ps h = rw (not_percent, not_underscore, not_backslash) refl
  where
    not_percent : (c == b'%') ≡ false
    not_percent = ground arith

    not_underscore : (c == b'_') ≡ false
    not_underscore = ground arith

    not_backslash : (c == b'\\') ≡ false
    not_backslash = ground arith

next_is-prefix :
    (c : ℕ) (test : Text → Bool) (w s : Text)
    → ((t : Text) → test t ≡ has_prefix t w)
    → next_is (λ d. d == c) test s ≡ has_prefix s (c ∷ w)
unfolding has_prefix
next_is-prefix c test w [] h = refl
next_is-prefix c test w (a ∷ s) h = ap (λ b. a == c && b) (h s)

-- A plain text before a `%` is a prefix.
like-prefix : (w : Text) → IsPlain w → (s : Text) → like (w ++ codes "%") s ≡ has_prefix s w
unfolding like has_prefix
like-prefix [] h [] = refl
like-prefix [] h (a ∷ s) = refl
like-prefix (c ∷ []) h s =
    ap (λ test. test s) (like-plain c b'%' [] (plain_head c [] h))
    ∙ next_is-prefix c (like (codes "%")) [] s (like-prefix [] refl)
like-prefix (c ∷ d ∷ w) h s =
    ap (λ test. test s) (like-plain c d (w ++ codes "%") (plain_head c (d ∷ w) h))
    ∙ next_is-prefix c (like (d ∷ (w ++ codes "%"))) (d ∷ w) s
        (like-prefix (d ∷ w) (IsPlain-tail c (d ∷ w) h))

any_suffix-contains :
    (test : Text → Bool) (w s : Text)
    → ((t : Text) → test t ≡ has_prefix t w)
    → any_suffix test s ≡ contains s w
unfolding any_suffix contains
any_suffix-contains test w [] h = h []
any_suffix-contains test w (a ∷ s) h =
    ap (λ b. b || any_suffix test s) (h (a ∷ s))
    ∙ ap (λ b. has_prefix (a ∷ s) w || b) (any_suffix-contains test w s h)

like-percent :
    (w s : Text) → like (b'%' ∷ (w ++ codes "%")) s ≡ any_suffix (like (w ++ codes "%")) s
unfolding like
like-percent [] s = refl
like-percent (c ∷ w) s = refl

-- A search text without `%`, `_` and `\` matches the columns that contain it, whatever the case of
-- the letters in either.
pub matches-contains :
    (search column : Text)
    → IsPlain search
    → matches search column ≡ contains (to_lower column) (to_lower search)
unfolding matches to_lower
matches-contains search column h =
    ap (λ p. like p (to_lower column)) (to_lower-append (codes "%") (search ++ codes "%"))
    ∙ ap (λ p. like (b'%' ∷ p) (to_lower column)) (to_lower-append search (codes "%"))
    ∙ like-percent (to_lower search) (to_lower column)
    ∙ any_suffix-contains (like (to_lower search ++ codes "%")) (to_lower search) (to_lower column)
        (like-prefix (to_lower search) (to_lower-IsPlain search h))

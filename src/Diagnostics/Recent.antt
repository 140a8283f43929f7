-- ===== src/Diagnostics/Recent.antt =====
-- The buffer holds the most recent lines, in their order.
use api_free_demo.Base.{
  ℕ, zero, suc, ◌-◌, ◌≤◌, ◌<◌, ◌≡◌, refl, sym, ◌∙◌, ap, true, false, List, [], ◌∷◌, ◌++◌, Text, ℤ,
  pos, negsuc, length, length-append, length-drop, drop, leb, if◌then◌else◌, arith, Bool-cases, inl,
  inr,
}
use mathlib.Core.Path.{subst, ap₂}
use api_free_demo.Diagnostics.{LogBuffer, or_default, new_log_buffer, append, append_all, snapshot}

-- The last `n` entries
abbrev pub latest : ℕ → List Text → List Text
latest n xs = drop (length xs - n) xs

drop-drop : (n : ℕ) (xs : List Text) → drop 1 (drop n xs) ≡ drop (suc n) xs
drop-drop zero xs = refl
drop-drop (suc n) [] = refl
drop-drop (suc n) (x ∷ xs) = drop-drop n xs

drop-append : (n : ℕ) (xs ys : List Text) → n ≤ length xs → drop n (xs ++ ys) ≡ drop n xs ++ ys
drop-append zero xs ys h = refl
drop-append (suc n) [] ys h = absurd (omega arith)
drop-append (suc n) (x ∷ xs) ys h = drop-append n xs ys (omega arith)

append_latest-full :
    (n : ℕ) (xs : List Text) (e : Text)
    → 1 ≤ n
    → n ≤ length xs
    → drop 1 (latest n xs) ++ e ∷ [] ≡ latest n (xs ++ e ∷ [])
append_latest-full n xs e h k =
    let count : suc (length xs - n) ≡ length (xs ++ e ∷ []) - n =
      omega (arith, length-append xs (e ∷ [])) in
    ap (λ ys. ys ++ e ∷ []) (drop-drop (length xs - n) xs)
    ∙ sym (drop-append (suc (length xs - n)) xs (e ∷ []) (omega arith))
    ∙ ap (λ m. drop m (xs ++ e ∷ [])) count

append_latest-room :
    (n : ℕ) (xs : List Text) (e : Text)
    → length xs < n
    → latest n xs ++ e ∷ [] ≡ latest n (xs ++ e ∷ [])
append_latest-room n xs e h =
    let none_dropped : length xs - n ≡ 0 = omega arith in
    let none_dropped' : 0 ≡ length (xs ++ e ∷ []) - n = omega (arith, length-append xs (e ∷ [])) in
    ap (λ m. drop m xs ++ e ∷ []) none_dropped ∙ ap (λ m. drop m (xs ++ e ∷ [])) none_dropped'

leb-true : (a b : ℕ) → leb a b ≡ true → a ≤ b
leb-true a b h = ground arith

leb-false : (a b : ℕ) → leb a b ≡ false → b < a
leb-false a b h = ground arith

-- The buffer holds the latest of the lines that have come.
abbrev Holds : ℕ → List Text → LogBuffer → Type 0
Holds n xs b = (b.cap ≡ n) × (b.lines ≡ latest n xs)

append-lines :
    (n : ℕ) (xs : List Text) (e : Text)
    → 1 ≤ n
    → (if leb n (length (latest n xs)) then drop 1 (latest n xs) else latest n xs) ++ e ∷ []
      ≡ latest n (xs ++ e ∷ [])
append-lines n xs e h = elim (Bool-cases (leb n (length (latest n xs)))) [
  | inl full ↦ rw full (
      append_latest-full n xs e h
        (omega (arith, leb-true _ _ full, length-drop (length xs - n) xs)))
  | inr room ↦ rw room (
      append_latest-room n xs e (omega (arith, leb-false _ _ room, length-drop (length xs - n) xs)))
]

append-nil : (xs : List Text) → xs ++ [] ≡ xs
append-nil [] = refl
append-nil (x ∷ xs) = ap (λ ys. x ∷ ys) (append-nil xs)

append-snoc : (xs : List Text) (e : Text) (es : List Text) → (xs ++ e ∷ []) ++ es ≡ xs ++ e ∷ es
append-snoc [] e es = refl
append-snoc (x ∷ xs) e es = ap (λ ys. x ∷ ys) (append-snoc xs e es)

drop-nil : (n : ℕ) → drop {A = Text} n [] ≡ []
drop-nil zero = refl
drop-nil (suc n) = refl

append-Holds :
    (n : ℕ) (xs : List Text) (e : Text) (b : LogBuffer)
    → 1 ≤ n
    → Holds n xs b
    → Holds n (xs ++ e ∷ []) (append e b)
unfolding append
append-Holds n xs e b h k = (
  k.0,
  ap (λ (p : ℕ × List Text). (if leb p.0 (length p.1) then drop 1 p.1 else p.1) ++ e ∷ [])
        (ap₂ (λ m ys. (m, ys)) k.0 k.1)
      ∙ append-lines n xs e h,
)

append_all-Holds :
    (n : ℕ) (xs es : List Text) (b : LogBuffer)
    → 1 ≤ n
    → Holds n xs b
    → Holds n (xs ++ es) (append_all es b)
unfolding append_all
append_all-Holds n xs [] b h k = subst (λ ys. Holds n ys b) (sym (append-nil xs)) k
append_all-Holds n xs (e ∷ es) b h k =
    subst (λ ys. Holds n ys (append_all es (append e b))) (append-snoc xs e es)
      (append_all-Holds n (xs ++ e ∷ []) es (append e b) h (append-Holds n xs e b h k))

or_default-positive : (limit : ℤ) → 1 ≤ or_default limit
or_default-positive (pos zero) = omega arith
or_default-positive (pos (suc n)) = omega arith
or_default-positive (negsuc n) = omega arith

-- A buffer made with any limit, after any lines have come, shows the latest of them in their
-- order: all of them while they fit, and the last `cap` afterwards, where `cap` is the limit, or
-- 100 for a limit that is not positive.
pub snapshot-latest :
    (limit : ℤ) (entries : List Text)
    → snapshot (append_all entries (new_log_buffer limit)) ≡ latest (or_default limit) entries
unfolding snapshot new_log_buffer
snapshot-latest limit entries =
    (append_all-Holds (or_default limit) [] entries (new_log_buffer limit)
      (or_default-positive limit) (refl, sym (drop-nil (0 - or_default limit)))).1

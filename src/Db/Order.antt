-- ===== src/Db/Order.antt =====
-- ORDER BY created_at DESC.
use api_free_demo.Base.{
  ◌≡◌, ◌≤◌, refl, ap, ◌∙◌, suc, Bool, true, false, List, [], ◌∷◌, All, arith, Bool-cases, inl, inr,
  length,
}
use mathlib.Core.List.{Perm}
use mathlib.Core.List.Perm
use api_free_demo.Profile.{Profile}
use api_free_demo.Db.{newer, insert_sorted, order_by}

insert_sorted-perm :
    {A : Type 0} (before : A → A → Bool) (x : A) (ys : List A)
    → Perm (insert_sorted before x ys) (x ∷ ys)
unfolding insert_sorted
insert_sorted-perm before x [] = Perm.rfl
insert_sorted-perm before x (y ∷ ys) = elim (Bool-cases (before y x)) [
  | inl first ↦
      rw first (Perm.trans (Perm.cons y (insert_sorted-perm before x ys)) (Perm.swap x y ys))
  | inr later ↦ rw later Perm.rfl
]

pub order_by-perm :
    {A : Type 0} (before : A → A → Bool) (xs : List A) → Perm (order_by before xs) xs
unfolding order_by
order_by-perm before [] = Perm.rfl
order_by-perm before (x ∷ xs) =
    Perm.trans (insert_sorted-perm before x (order_by before xs))
      (Perm.cons x (order_by-perm before xs))

-- No row was created later than one before it.
abbrev pub IsLatest : Profile → Profile → Type 0
IsLatest x y = y.created_at ≤ x.created_at

abbrev pub IsDescending : List Profile → Type 0
IsDescending [] = Unit
IsDescending (x ∷ xs) = All (IsLatest x) xs × IsDescending xs

All-insert_sorted :
    (P : Profile → Type 0) (x : Profile) (ys : List Profile)
    → P x
    → All P ys
    → All P (insert_sorted newer x ys)
unfolding insert_sorted
All-insert_sorted P x [] h k = (h, tt)
All-insert_sorted P x (y ∷ ys) h k = elim (Bool-cases (newer y x)) [
  | inl first ↦ rw first (k.0, All-insert_sorted P x ys h k.1)
  | inr later ↦ rw later (h, k)
]

All-IsLatest :
    (x y : Profile) (ys : List Profile) → IsLatest x y → All (IsLatest y) ys → All (IsLatest x) ys
All-IsLatest x y [] h k = tt
All-IsLatest x y (z ∷ zs) h k = (omega (arith, h, k.0), All-IsLatest x y zs h k.1)

insert_sorted-IsDescending :
    (x : Profile) (ys : List Profile) → IsDescending ys → IsDescending (insert_sorted newer x ys)
unfolding insert_sorted
insert_sorted-IsDescending x [] h = (tt, tt)
insert_sorted-IsDescending x (y ∷ ys) h = elim (Bool-cases (newer y x)) [
  | inl first ↦ rw first (
    All-insert_sorted (IsLatest y) x ys (before_of first) h.0,
    insert_sorted-IsDescending x ys h.1,
  )
  | inr later ↦ rw later ((after_of later, All-IsLatest x y ys (after_of later) h.0), (h.0, h.1))
]
  where
    before_of : newer y x ≡ true → x.created_at ≤ y.created_at
    before_of e = ground arith

    after_of : newer y x ≡ false → y.created_at ≤ x.created_at
    after_of e = ground arith

pub order_by-IsDescending : (xs : List Profile) → IsDescending (order_by newer xs)
unfolding order_by
order_by-IsDescending [] = tt
order_by-IsDescending (x ∷ xs) =
    insert_sorted-IsDescending x (order_by newer xs) (order_by-IsDescending xs)

length-insert_sorted :
    {A : Type 0} (before : A → A → Bool) (x : A) (ys : List A)
    → length (insert_sorted before x ys) ≡ suc (length ys)
unfolding insert_sorted
length-insert_sorted before x [] = refl
length-insert_sorted before x (y ∷ ys) = ground (arith, length-insert_sorted before x ys)

pub length-order_by :
    {A : Type 0} (before : A → A → Bool) (xs : List A) → length (order_by before xs) ≡ length xs
unfolding order_by
length-order_by before [] = refl
length-order_by before (x ∷ xs) =
    length-insert_sorted before x (order_by before xs) ∙ ap suc (length-order_by before xs)

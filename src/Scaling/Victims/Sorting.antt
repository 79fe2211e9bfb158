-- ===== src/Scaling/Victims/Sorting.antt =====
-- Python's `sorted` with a numeric key: stable, in ascending order.
use mathlib.Core.List.{reverse, reverse-cons, Perm}
use mathlib.Core.List.Perm
use senlin.Prelude.{
  ℕ, ◌≤◌, List, [], ◌∷◌, ◌++◌, All, leb, if◌then◌else◌, Bool-cases, inl, inr, arith,
}

module _ {A : Type 0} (key : A → ℕ) where
  -- Before the first element that is not smaller, so that equal keys keep their order.
  unfoldable pub insert_by : A → List A → List A
  insert_by x [] = x ∷ []
  insert_by x (y ∷ ys) = if leb (key x) (key y) then x ∷ y ∷ ys else y ∷ insert_by x ys

  unfoldable pub sort_by : List A → List A
  unfolding insert_by
  sort_by [] = []
  sort_by (x ∷ xs) = insert_by x (sort_by xs)

  insert_by-perm : (x : A) (l : List A) → Perm (insert_by x l) (x ∷ l)
  unfolding insert_by
  insert_by-perm x [] = Perm.rfl
  insert_by-perm x (y ∷ ys) = elim (Bool-cases (leb (key x) (key y))) [
    | inl e ↦ rw (e, insert_by) Perm.rfl
    | inr e ↦ rw (e, insert_by) (Perm.trans (Perm.cons y (insert_by-perm x ys)) (Perm.swap x y ys))
  ]

  pub sort_by-perm : (l : List A) → Perm (sort_by l) l
  unfolding sort_by
  sort_by-perm [] = Perm.rfl
  sort_by-perm (x ∷ xs) = Perm.trans (insert_by-perm x (sort_by xs)) (Perm.cons x (sort_by-perm xs))

-- Every element is related to all that stand behind it.
abbrev pub IsSorted {ℓ} : {A : Type ℓ} → (A → A → Type 0) → List A → Type 0
IsSorted R [] = Unit
IsSorted R (x ∷ xs) = All (R x) xs × IsSorted R xs

abbrev pub AllPairs {ℓ} : {A : Type ℓ} → (A → A → Type 0) → List A → List A → Type 0
AllPairs R [] ys = Unit
AllPairs R (x ∷ xs) ys = All (R x) ys × AllPairs R xs ys

module _ {A : Type 0} (P : A → Type 0) where
  All-append : (xs ys : List A) → All P xs → All P ys → All P (xs ++ ys)
  All-append [] ys h k = k
  All-append (x ∷ xs) ys h k = (h.0, All-append xs ys h.1 k)

  All-append_right : (xs ys : List A) → All P (xs ++ ys) → All P ys
  All-append_right [] ys h = h
  All-append_right (x ∷ xs) ys h = All-append_right xs ys h.1

  All-reverse : (xs : List A) → All P xs → All P (reverse xs)
  All-reverse [] h = tt
  All-reverse (x ∷ xs) h =
      rw reverse-cons (All-append (reverse xs) (x ∷ []) (All-reverse xs h.1) (h.0, tt))

module _ {A : Type 0} (R : A → A → Type 0) where
  -- In a sorted list the elements of a first part are related to those of the rest.
  pub IsSorted-split : (xs ys : List A) → IsSorted R (xs ++ ys) → AllPairs R xs ys
  IsSorted-split [] ys h = tt
  IsSorted-split (x ∷ xs) ys h = (All-append_right (R x) xs ys h.0, IsSorted-split xs ys h.1)

  snoc-IsSorted :
      (xs : List A) (y : A) → IsSorted R xs → All (λ x. R x y) xs → IsSorted R (xs ++ y ∷ [])
  snoc-IsSorted [] y s h = (tt, tt)
  snoc-IsSorted (x ∷ xs) y s h =
      (All-append (R x) xs (y ∷ []) s.0 (h.0, tt), snoc-IsSorted xs y s.1 h.1)

pub reverse-IsSorted :
    {A : Type 0} (R : A → A → Type 0) (xs : List A)
    → IsSorted R xs
    → IsSorted (λ a b. R b a) (reverse xs)
reverse-IsSorted R [] h = tt
reverse-IsSorted R (x ∷ xs) h = rw reverse-cons (
    snoc-IsSorted (λ a b. R b a) (reverse xs) x (reverse-IsSorted R xs h.1)
      (All-reverse (R x) xs h.0))

module _ {A : Type 0} (key : A → ℕ) where
  All-le_trans :
      (x y : A) (l : List A)
      → key x ≤ key y
      → All (λ z. key y ≤ key z) l
      → All (λ z. key x ≤ key z) l
  All-le_trans x y [] h k = tt
  All-le_trans x y (z ∷ l) h k = (omega (arith, k.0), All-le_trans x y l h k.1)

  insert_by-All : (P : A → Type 0) (x : A) (l : List A) → P x → All P l → All P (insert_by key x l)
  unfolding insert_by
  insert_by-All P x [] h k = (h, tt)
  insert_by-All P x (y ∷ ys) h k = elim (Bool-cases (leb (key x) (key y))) [
    | inl e ↦ rw e (h, k)
    | inr e ↦ rw e (k.0, insert_by-All P x ys h k.1)
  ]

  insert_by-IsSorted :
      (x : A) (l : List A)
      → IsSorted (λ a b. key a ≤ key b) l
      → IsSorted (λ a b. key a ≤ key b) (insert_by key x l)
  unfolding insert_by
  insert_by-IsSorted x [] s = (tt, tt)
  insert_by-IsSorted x (y ∷ ys) s = elim (Bool-cases (leb (key x) (key y))) [
    | inl e ↦
        let below : key x ≤ key y = ground arith in rw e ((below, All-le_trans x y ys below s.0), s)
    | inr e ↦
        rw e
          (insert_by-All (λ z. key y ≤ key z) x ys (ground arith) s.0, insert_by-IsSorted x ys s.1)
  ]

  pub sort_by-IsSorted : (l : List A) → IsSorted (λ a b. key a ≤ key b) (sort_by key l)
  unfolding sort_by
  sort_by-IsSorted [] = tt
  sort_by-IsSorted (x ∷ xs) = insert_by-IsSorted x (sort_by key xs) (sort_by-IsSorted xs)

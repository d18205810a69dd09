-- ===== src/Common/Sort.antt =====
-- `sort.SliceStable`, and `sort.Slice` where the test tells any two members apart: insertion by a
-- Boolean test. Equal members keep their order.
use mathlib.Core.List.Perm
use mathlib.Core.List.{Perm}
use kubetin.Common.{
  count_if, arith, suc, ◌≡◌, refl, ap, ◌∙◌, Bool, true, false, List, [], ◌∷◌, length, All,
  if◌then◌else◌, if-case,
}

module _ {ℓ} {A : Type ℓ} (less : A → A → Bool) where
  unfoldable pub insert : A → List A → List A
  insert x [] = x ∷ []
  insert x (y ∷ ys) = if less y x then y ∷ insert x ys else x ∷ y ∷ ys

  unfoldable pub sort : List A → List A
  unfolding insert
  sort [] = []
  sort (x ∷ xs) = insert x (sort xs)

  insert-perm : (x : A) (xs : List A) → Perm (insert x xs) (x ∷ xs)
  unfolding insert
  insert-perm x [] = Perm.rfl
  insert-perm x (y ∷ ys) =
      if-case (λ zs. Perm zs (x ∷ y ∷ ys)) (less y x)
        (λ _. Perm.trans (Perm.cons y (insert-perm x ys)) (Perm.swap x y ys)) (λ _. Perm.rfl)

  length-insert : (x : A) (xs : List A) → length (insert x xs) ≡ suc (length xs)
  unfolding insert
  length-insert x [] = refl
  length-insert x (y ∷ ys) =
      if-case (λ (zs : List A). length zs ≡ suc (suc (length ys))) (less y x)
        (λ _. ap suc (length-insert x ys)) (λ _. refl)

  pub sort-perm : (xs : List A) → Perm (sort xs) xs
  unfolding sort
  sort-perm [] = Perm.rfl
  sort-perm (x ∷ xs) = Perm.trans (insert-perm x (sort xs)) (Perm.cons x (sort-perm xs))

  insert-All : (P : A → Type 0) (x : A) (xs : List A) → P x → All P xs → All P (insert x xs)
  unfolding insert
  insert-All P x [] p h = (p, tt)
  insert-All P x (y ∷ ys) p (q, h) =
      if-case (All P) (less y x) (λ _. (q, insert-All P x ys p h)) (λ _. (p, (q, h)))

  pub sort-All : (P : A → Type 0) (xs : List A) → All P xs → All P (sort xs)
  unfolding sort
  sort-All P [] h = tt
  sort-All P (x ∷ xs) (p, h) = insert-All P x (sort xs) p (sort-All P xs h)

  pub length-sort : (xs : List A) → length (sort xs) ≡ length xs
  unfolding sort
  length-sort [] = refl
  length-sort (x ∷ xs) = length-insert x (sort xs) ∙ ap suc (length-sort xs)

  count_if-insert :
      (p : A → Bool) (x : A) (xs : List A) → count_if p (insert x xs) ≡ count_if p (x ∷ xs)
  unfolding insert
  count_if-insert p x [] = refl
  count_if-insert p x (y ∷ ys) = ground (arith, count_if-insert p x ys)

  pub count_if-sort : (p : A → Bool) (xs : List A) → count_if p (sort xs) ≡ count_if p xs
  unfolding sort
  count_if-sort p [] = refl
  count_if-sort p (x ∷ xs) = ground (arith, count_if-insert p x (sort xs), count_if-sort p xs)

  -- No member is before its predecessor.
  abbrev pub Follows : A → List A → Type 0
  Follows x [] = Unit
  Follows x (y ∷ ys) = less y x ≡ false

  abbrev pub IsSorted : List A → Type 0
  IsSorted [] = Unit
  IsSorted (x ∷ xs) = Follows x xs × IsSorted xs

  module _ (asym : (x y : A) → less x y ≡ true → less y x ≡ false) where
    insert-Follows :
        (x y : A) (ys : List A) → less y x ≡ true → Follows y ys → Follows y (insert x ys)
    unfolding insert
    insert-Follows x y [] h f = asym y x h
    insert-Follows x y (z ∷ zs) h f = if-case (Follows y) (less z x) (λ _. f) (λ _. asym y x h)

    insert-IsSorted : (x : A) (xs : List A) → IsSorted xs → IsSorted (insert x xs)
    unfolding insert
    insert-IsSorted x [] s = (tt, tt)
    insert-IsSorted x (y ∷ ys) (f, s) =
        if-case IsSorted (less y x) (λ h. (insert-Follows x y ys h f, insert-IsSorted x ys s))
          (λ h. (h, (f, s)))

    pub sort-IsSorted : (xs : List A) → IsSorted (sort xs)
    unfolding sort
    sort-IsSorted [] = tt
    sort-IsSorted (x ∷ xs) = insert-IsSorted x (sort xs) (sort-IsSorted xs)

-- Each member stands in a relation to the next one.
abbrev pub InOrder {ℓ} : {A : Type ℓ} → (A → A → Bool) → List A → Type 0
InOrder before [] = Unit
InOrder before (x ∷ []) = Unit
InOrder before (x ∷ y ∷ ys) = (before x y ≡ true) × InOrder before (y ∷ ys)

pub sorted-InOrder {ℓ} :
    {A : Type ℓ} (less before : A → A → Bool)
    → ((x y : A) → less y x ≡ false → before x y ≡ true)
    → (xs : List A) → IsSorted less xs
    → InOrder before xs
sorted-InOrder less before f [] s = tt
sorted-InOrder less before f (x ∷ []) s = tt
sorted-InOrder less before f (x ∷ y ∷ ys) (h, s) =
    (f x y h, sorted-InOrder less before f (y ∷ ys) s)

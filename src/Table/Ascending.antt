-- ===== src/Table/Ascending.antt =====
-- Lists of texts that ascend in an order: a sort gives one, and the members determine it.
use kubetin.Common.{
  ◌≡◌, refl, sym, ap, subst, ◌∙◌, String, Bool, true, false, ◌&&◌, ◌||◌, List, [], ◌∷◌, ◌++◌, All,
  All-map, Distinct, has, str_eq, filter, arith, eq_iff, if-case, Bool-cases, inl, inr,
}
use kubetin.Common.Sort.{insert, sort}

-- Equal texts pass the same tests.
pub test_same : (p : String → Bool) (x y : String) → str_eq x y ≡ true → p x ≡ p y
test_same p x y h = ap p ((eq_iff x y).0 h)

pub has-append : (x : String) (xs ys : List String) → has x (xs ++ ys) ≡ (has x xs || has x ys)
has-append x [] ys = refl
has-append x (y ∷ xs) ys = ground (arith, has-append x xs ys)

pub has-filter :
    (p : String → Bool) (x : String) (xs : List String) → has x (filter p xs) ≡ (has x xs && p x)
has-filter p x [] = refl
has-filter p x (y ∷ xs) = ground (arith, has-filter p x xs, test_same p y x)

pub All-has :
    (P : String → Type 0) (x : String) (xs : List String) → has x xs ≡ true → All P xs → P x
All-has P x [] h a = cc
All-has P x (y ∷ xs) h (p, a) = elim (Bool-cases (str_eq y x)) [
  | inl e ↦ subst P ((eq_iff y x).0 e) p
  | inr e ↦ All-has P x xs (ground arith) a
]

pub filter-Distinct : (p : String → Bool) (xs : List String) → Distinct xs → Distinct (filter p xs)
filter-Distinct p [] d = tt
filter-Distinct p (x ∷ xs) (n, d) =
    if-case Distinct (p x) (λ _. (has-filter p x xs ∙ ground arith, filter-Distinct p xs d))
      (λ _. filter-Distinct p xs d)

module _ (less : String → String → Bool) where
  abbrev pub IsAscending : List String → Type 0
  IsAscending [] = Unit
  IsAscending (x ∷ xs) = All (λ y. less x y ≡ true) xs × IsAscending xs

  pub has-insert :
      (u x : String) (xs : List String) → has u (insert less x xs) ≡ (str_eq x u || has u xs)
  unfolding insert
  has-insert u x [] = refl
  has-insert u x (y ∷ ys) = ground (arith, has-insert u x ys)

  pub has-sort : (u : String) (xs : List String) → has u (sort less xs) ≡ has u xs
  unfolding sort
  has-sort u [] = refl
  has-sort u (x ∷ xs) = has-insert u x (sort less xs) ∙ ap (λ b. str_eq x u || b) (has-sort u xs)

  module _ (known : String → Bool) (asym : (x y : String) → less x y ≡ true → less y x ≡ false)
      (trans : (x y z : String) → less x y ≡ true → less y z ≡ true → less x z ≡ true)
      (total : (x y : String)
        → known x ≡ true
        → known y ≡ true
        → str_eq x y ≡ false
        → less y x ≡ false
        → less x y ≡ true) where
    -- What is above a member is above all below it.
    pub below_all :
        (x y : String) (zs : List String)
        → less x y ≡ true
        → All (λ z. less y z ≡ true) zs
        → All (λ z. less x z ≡ true) zs
    below_all x y zs h a =
        All-map (λ z. less y z ≡ true) (λ z. less x z ≡ true) (λ z g. trans x y z h g) zs a

    insert-All :
        (P : String → Type 0) (x : String) (xs : List String)
        → P x
        → All P xs
        → All P (insert less x xs)
    unfolding insert
    insert-All P x [] p a = (p, tt)
    insert-All P x (y ∷ ys) p (q, a) =
        if-case (All P) (less y x) (λ _. (q, insert-All P x ys p a)) (λ _. (p, (q, a)))

    insert-IsAscending :
        (x : String) (xs : List String)
        → known x ≡ true
        → All (λ y. known y ≡ true) xs
        → has x xs ≡ false
        → IsAscending xs
        → IsAscending (insert less x xs)
    unfolding insert
    insert-IsAscending x [] k ks n a = (tt, tt)
    insert-IsAscending x (y ∷ ys) k (j, ks) n (b, a) =
        if-case IsAscending (less y x)
          (λ h. (
            insert-All (λ z. less y z ≡ true) x ys h b,
            insert-IsAscending x ys k ks (ground arith) a,
          ))
          (λ h.
            let first : less x y ≡ true =
              total x y k j (ground (arith, eq_iff x y, eq_iff y x)) h in
            ((first, below_all x y ys first b), (b, a)))

    sort_known :
        (xs : List String) → All (λ y. known y ≡ true) xs → All (λ y. known y ≡ true) (sort less xs)
    unfolding sort
    sort_known [] ks = tt
    sort_known (x ∷ xs) (k, ks) =
        insert-All (λ y. known y ≡ true) x (sort less xs) k (sort_known xs ks)

    pub sort-IsAscending :
        (xs : List String) → All (λ y. known y ≡ true) xs → Distinct xs → IsAscending (sort less xs)
    unfolding sort
    sort-IsAscending [] ks d = tt
    sort-IsAscending (x ∷ xs) (k, ks) (n, d) =
        insert-IsAscending x (sort less xs) k (sort_known xs ks) (has-sort x xs ∙ n)
          (sort-IsAscending xs ks d)

    above_itself :
        (x : String) (xs : List String) → All (λ y. less x y ≡ true) xs → has x xs ≡ false
    above_itself x xs a = elim (Bool-cases (has x xs)) [
      | inl h ↦ absurd (ground (arith, All-has (λ y. less x y ≡ true) x xs h a, asym x x))
      | inr h ↦ h
    ]

    first_same :
        (x y : String) (xs ys : List String)
        → IsAscending (x ∷ xs)
        → IsAscending (y ∷ ys)
        → has x (y ∷ ys) ≡ true
        → has y (x ∷ xs) ≡ true
        → x ≡ y
    first_same x y xs ys (a, _) (b, _) h k = elim (Bool-cases (str_eq x y)) [
      | inl e ↦ (eq_iff x y).0 e
      | inr e ↦
          let up : less x y ≡ true = All-has (λ z. less x z ≡ true) y xs (ground arith) a in
          let down : less y x ≡ true =
            All-has (λ z. less y z ≡ true) x ys (ground (arith, eq_iff x y, eq_iff y x)) b in
          absurd (ground (arith, asym x y up))
    ]

    -- The members determine an ascending list.
    pub ascending_same :
        (xs ys : List String)
        → IsAscending xs
        → IsAscending ys
        → ((u : String) → has u xs ≡ has u ys)
        → xs ≡ ys
    ascending_same [] [] a b h = refl
    ascending_same [] (y ∷ ys) a b h = absurd (ground (arith, h y, eq_iff y y))
    ascending_same (x ∷ xs) [] a b h = absurd (ground (arith, h x, eq_iff x x))
    ascending_same (x ∷ xs) (y ∷ ys) a b h =
        let e : x ≡ y =
          first_same x y xs ys a b (sym (h x) ∙ ground (arith, eq_iff x x))
            (h y ∙ ground (arith, eq_iff y y)) in
        let tails : xs ≡ ys = ascending_same xs ys a.1 b.1 (λ u. ground (
          arith,
          h u,
          e,
          eq_iff x u,
          eq_iff y u,
          above_itself x xs a.0,
          above_itself y ys b.0,
          test_same (λ v. has v xs) x u,
          test_same (λ v. has v ys) y u,
        )) in
        cc

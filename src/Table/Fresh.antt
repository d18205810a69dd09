-- ===== src/Table/Fresh.antt =====
-- internal/ui/table_cache.go: the cached order of the pods is the one that a new sort gives.
use kubetin.Common.{
  ◌≡◌, sym, ◌∙◌, String, Bool, true, false, not, ◌&&◌, List, [], ◌∷◌, has, Distinct, All, filter,
  arith, eq_iff, if-case, Bool-cases, inl, inr,
}
use kubetin.Common.Sort.{sort}
use kubetin.Table.Ascending.{
  has-filter, filter-Distinct, All-has, IsAscending, has-sort, sort-IsAscending, ascending_same,
}
use kubetin.Table.Rows.{SortKey, PodMap, less_pod_uid, pod_matches}
use kubetin.Table.Order.{
  key_eq, row_key, less_by_same, less_pod_uid_asym, less_pod_uid_trans, less_pod_uid_total,
}
use kubetin.Table.Kept.{IsKept}
use kubetin.Table.Cache.{TableKey, TableOrder}

-- The members that are not dirty.
abbrev pub clean : List String → List String → List String
clean dirty us = filter (λ u. not (has u dirty)) us

pub All_of_has :
    (P : String → Type 0) (xs : List String) → ((x : String) → has x xs ≡ true → P x) → All P xs
All_of_has P [] h = tt
All_of_has P (x ∷ xs) h =
    (h x (ground (arith, eq_iff x x)), All_of_has P xs (λ y g. h y (ground arith)))

All_filter :
    (P Q : String → Type 0) (p q : String → Bool) (xs : List String)
    → ((x : String) → q x ≡ true → p x ≡ true)
    → ((x : String) → q x ≡ true → P x → Q x)
    → All P (filter p xs)
    → All Q (filter q xs)
All_filter P Q p q xs f g a = All_of_has Q (filter q xs) (λ x h.
    let kept : q x ≡ true = ground (arith, has-filter q x xs) in
    g x kept (
      All-has P x (filter p xs) (ground (arith, has-filter q x xs, has-filter p x xs, f x kept)) a))

-- A part of an ascending list ascends, also in an order that agrees on the part.
pub filter-IsAscending :
    (less less' : String → String → Bool) (p q : String → Bool) (xs : List String)
    → ((x : String) → q x ≡ true → p x ≡ true)
    → ((x y : String) → q x ≡ true → q y ≡ true → less' x y ≡ less x y)
    → IsAscending less (filter p xs)
    → IsAscending less' (filter q xs)
filter-IsAscending less less' p q [] f g a = tt
filter-IsAscending less less' p q (x ∷ xs) f g a = elim (Bool-cases (p x)) [
  | inl h ↦
      let (b, c) : All (λ y. less x y ≡ true) (filter p xs) × IsAscending less (filter p xs) =
        rw h at a in
      if-case (IsAscending less') (q x)
        (λ k. (
          All_filter (λ y. less x y ≡ true) (λ y. less' x y ≡ true) p q xs f
              (λ y j l. g x y k j ∙ l) b,
          filter-IsAscending less less' p q xs f g c,
        ))
        (λ k. filter-IsAscending less less' p q xs f g c)
  | inr h ↦
      let c : IsAscending less (filter p xs) = rw h at a in
      if-case (IsAscending less') (q x) (λ k. absurd (ground (arith, f x k)))
        (λ k. filter-IsAscending less less' p q xs f g c)
]

-- Rows that compare as equal for both of two UIDs are in the same order.
pub less_pod_uid_same :
    (m n : PodMap) (k : SortKey) (desc : Bool) (x y : String)
    → key_eq (row_key k (n.rows x)) (row_key k (m.rows x)) ≡ true
    → key_eq (row_key k (n.rows y)) (row_key k (m.rows y)) ≡ true
    → less_pod_uid n k desc x y ≡ less_pod_uid m k desc x y
unfolding less_pod_uid
less_pod_uid_same m n k desc x y e f = ground (
  arith,
  less_by_same k (n.rows x) (n.rows y) (m.rows x) (m.rows y) e f,
  less_by_same k (n.rows y) (n.rows x) (m.rows y) (m.rows x) f e,
)

module _ (to_lower : String → String) (contains_text : String → String → Bool) where
  -- Whether a pod is in the map and shown under a key.
  abbrev pub is_shown : PodMap → TableKey → String → Bool
  is_shown m key u =
      has u m.uids
      && pod_matches to_lower contains_text m key.namespace (to_lower key.filter_text) u

  abbrev pub key_less : PodMap → TableKey → String → String → Bool
  key_less m key = less_pod_uid m key.sort_key key.desc

  -- An order that is right but for its dirty members.
  pub record IsRight (m : PodMap) (o : TableOrder) : Type 0 where
    pub members : (u : String) → has u o.dirty ≡ false → has u o.uids ≡ is_shown m o.key u
    pub ascending : IsAscending (key_less m o.key) (clean o.dirty o.uids)
    pub apart : Distinct o.dirty

  module _ (m : PodMap) (kept : IsKept m) (key : TableKey) where
    abbrev pub built : List String
    built =
        filter (pod_matches to_lower contains_text m key.namespace (to_lower key.filter_text))
          m.uids

    pub sort-built : IsAscending (key_less m key) (sort (key_less m key) built)
    sort-built =
        sort-IsAscending (key_less m key) (λ u. has u m.uids)
          (less_pod_uid_asym m key.sort_key key.desc) (less_pod_uid_trans m key.sort_key key.desc)
          (less_pod_uid_total m key.sort_key key.desc kept.own) built
          (All_of_has (λ u. has u m.uids ≡ true) built
            (λ u h. ground (
              arith,
              has-filter
                  (pod_matches to_lower contains_text m key.namespace (to_lower key.filter_text)) u
                  m.uids,
            )))
          (filter-Distinct
            (pod_matches to_lower contains_text m key.namespace (to_lower key.filter_text)) m.uids
            kept.distinct)

    pub has-sort-built : (u : String) → has u (sort (key_less m key) built) ≡ is_shown m key u
    has-sort-built u =
        has-sort (key_less m key) u built
        ∙ has-filter (pod_matches to_lower contains_text m key.namespace (to_lower key.filter_text))
            u m.uids

    -- An ascending list of the pods that are shown is what a sort gives.
    pub built_same :
        (us : List String)
        → IsAscending (key_less m key) us
        → ((u : String) → has u us ≡ is_shown m key u)
        → us ≡ sort (key_less m key) built
    built_same us a h =
        ascending_same (key_less m key) (λ u. has u m.uids)
          (less_pod_uid_asym m key.sort_key key.desc) (less_pod_uid_trans m key.sort_key key.desc)
          (less_pod_uid_total m key.sort_key key.desc kept.own) us (sort (key_less m key) built) a
          sort-built (λ u. h u ∙ sym (has-sort-built u))

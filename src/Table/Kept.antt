-- ===== src/Table/Kept.antt =====
-- internal/ui/pod.go: the map of pods, whose rows carry the UIDs that they are kept under.
use kubetin.Common.{
  ◌≡◌, refl, ap, ◌∙◌, String, true, false, not, ◌&&◌, ◌||◌, has, Distinct, str_eq, arith, eq_iff,
  if-case, update,
}
use kubetin.Table.Ascending.{has-filter, filter-Distinct, test_same}
use kubetin.Table.Rows.{PodRow, zero_row, PodMap, no_pods, store_pod, delete_pod}

pub record IsKept (m : PodMap) : Type 0 where
  pub distinct : Distinct m.uids
  pub own : (u : String) → has u m.uids ≡ true → (m.rows u).uid ≡ u
  pub named : (u : String) → has u m.uids ≡ true → str_eq u "" ≡ false
  pub missing : (u : String) → has u m.uids ≡ false → m.rows u ≡ zero_row

pub no_pods-IsKept : IsKept no_pods
no_pods-IsKept = record { distinct = tt; own = λ u h. cc; named = λ u h. cc; missing = λ u h. refl }

pub has-store :
    (u v : String) (r : PodRow) (m : PodMap)
    → has v (store_pod u r m).uids ≡ (str_eq u v || has v m.uids)
has-store u v r m = ground (arith, test_same (λ w. has w m.uids) u v)

pub has-delete :
    (u v : String) (m : PodMap) → has v (delete_pod u m).uids ≡ (has v m.uids && not (str_eq u v))
has-delete u v m = has-filter (λ w. not (str_eq u w)) v m.uids

pub row-update :
    (u v : String) (r : PodRow) (f : String → PodRow) → str_eq u v ≡ false → update u r f v ≡ f v
row-update u v r f h = rw h refl

pub store_pod-IsKept :
    (r : PodRow) (m : PodMap) → str_eq r.uid "" ≡ false → IsKept m → IsKept (store_pod r.uid r m)
store_pod-IsKept r m n inv = record {
  distinct = if-case Distinct (has r.uid m.uids) (λ _. inv.distinct) (λ h. (h, inv.distinct));
  own = λ v h.
      if-case (λ (s : PodRow). s.uid ≡ v) (str_eq r.uid v) (λ e. (eq_iff r.uid v).0 e)
        (λ e. inv.own v (ground (arith, has-store r.uid v r m)));
  named = λ v h.
      ground (arith, has-store r.uid v r m, inv.named v, test_same (λ w. str_eq w "") r.uid v);
  missing = λ v h.
      row-update r.uid v r m.rows (ground (arith, has-store r.uid v r m))
      ∙ inv.missing v (ground (arith, has-store r.uid v r m));
}

pub delete_pod-IsKept : (u : String) (m : PodMap) → IsKept m → IsKept (delete_pod u m)
delete_pod-IsKept u m inv = record {
  distinct = filter-Distinct (λ w. not (str_eq u w)) m.uids inv.distinct;
  own = λ v h.
      row_uid v (ground (arith, has-delete u v m)) ∙ inv.own v (ground (arith, has-delete u v m));
  named = λ v h. inv.named v (ground (arith, has-delete u v m));
  missing = λ v h.
      if-case (λ (s : PodRow). s ≡ zero_row) (str_eq u v) (λ e. refl)
        (λ e. inv.missing v (ground (arith, has-delete u v m)));
}
  where
    row_uid : (v : String) → str_eq u v ≡ false → (update u zero_row m.rows v).uid ≡ (m.rows v).uid
    row_uid v e = ap (λ (s : PodRow). s.uid) (row-update u v zero_row m.rows e)

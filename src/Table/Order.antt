-- ===== src/Table/Order.antt =====
-- internal/ui/pod.go: `lessBy` with its tie breakers is a linear order, in both directions.
use kubetin.Common.{◌≡◌, refl, sym, ap, ◌∙◌, String, Bool, true, false, has, str_eq, arith, eq_iff}
use kubetin.Common.Text.{text_ltb}
use kubetin.Table.Linear.{
  IsLinear, text-IsLinear, int-IsLinear, then_less, then_eq, then_less-IsLinear, less_left,
  less_right, eq_of_total,
}
use kubetin.Table.Rows.{
  SortKey, PodRow, PodMap, SortValue, text, number, sort_value, value_ltb, value_eq, less_by,
  less_pod_uid,
}

value_ltb-IsLinear : IsLinear value_ltb value_eq
value_ltb-IsLinear = record {
  asym = asym;
  trans = trans;
  total = total;
  sound = sound;
  self = self;
}
  where
    asym : (x y : SortValue) → value_ltb x y ≡ true → value_ltb y x ≡ false
    asym (text s) (text t) h = text-IsLinear.asym s t h
    asym (text s) (number b) h = refl
    asym (number a) (text t) h = cc
    asym (number a) (number b) h = int-IsLinear.asym a b h

    trans : (x y z : SortValue) → value_ltb x y ≡ true → value_ltb y z ≡ true → value_ltb x z ≡ true
    trans (text s) (text t) (text u) h k = text-IsLinear.trans s t u h k
    trans (text s) y (number c) h k = refl
    trans (text s) (number b) (text u) h k = cc
    trans (number a) (text t) z h k = cc
    trans (number a) (number b) (text u) h k = cc
    trans (number a) (number b) (number c) h k = int-IsLinear.trans a b c h k

    total : (x y : SortValue) → value_ltb x y ≡ false → value_ltb y x ≡ false → x ≡ y
    total (text s) (text t) h k = ap text (text-IsLinear.total s t h k)
    total (text s) (number b) h k = cc
    total (number a) (text t) h k = cc
    total (number a) (number b) h k = ap number (int-IsLinear.total a b h k)

    sound : (x y : SortValue) → value_eq x y ≡ true → x ≡ y
    sound (text s) (text t) h = ap text (text-IsLinear.sound s t h)
    sound (text s) (number b) h = cc
    sound (number a) (text t) h = cc
    sound (number a) (number b) h = ap number (int-IsLinear.sound a b h)

    self : (x : SortValue) → value_eq x x ≡ true
    self (text s) = text-IsLinear.self s
    self (number a) = int-IsLinear.self a

-- What two rows are compared by, in this order.
abbrev pub RowKey : Type 0
RowKey = SortValue × (String × (String × String))

abbrev pub row_key : SortKey → PodRow → RowKey
row_key k r = (sort_value k r, (r.namespace, (r.name, r.uid)))

abbrev name_ltb : String × String → String × String → Bool
name_ltb = then_less text_ltb str_eq text_ltb str_eq

abbrev name_eq : String × String → String × String → Bool
name_eq = then_eq text_ltb str_eq text_ltb str_eq

abbrev place_ltb : String × (String × String) → String × (String × String) → Bool
place_ltb = then_less text_ltb str_eq name_ltb name_eq

abbrev place_eq : String × (String × String) → String × (String × String) → Bool
place_eq = then_eq text_ltb str_eq name_ltb name_eq

abbrev pub key_ltb : RowKey → RowKey → Bool
key_ltb = then_less value_ltb value_eq place_ltb place_eq

abbrev pub key_eq : RowKey → RowKey → Bool
key_eq = then_eq value_ltb value_eq place_ltb place_eq

pub key_ltb-IsLinear : IsLinear key_ltb key_eq
key_ltb-IsLinear = then_less-IsLinear value_ltb value_eq place_ltb place_eq value_ltb-IsLinear (
    then_less-IsLinear text_ltb str_eq name_ltb name_eq text-IsLinear
      (then_less-IsLinear text_ltb str_eq text_ltb str_eq text-IsLinear text-IsLinear))

pub less_by_key : (a b : PodRow) (k : SortKey) → less_by a b k ≡ key_ltb (row_key k a) (row_key k b)
unfolding less_by
less_by_key a b k = refl

-- The order is the same on rows that compare as equal.
pub less_by_same :
    (k : SortKey) (a b c d : PodRow)
    → key_eq (row_key k a) (row_key k c) ≡ true
    → key_eq (row_key k b) (row_key k d) ≡ true
    → less_by a b k ≡ less_by c d k
less_by_same k a b c d e f =
    less_by_key a b k
    ∙ less_left key_ltb-IsLinear (row_key k a) (row_key k c) (row_key k b) e
    ∙ less_right key_ltb-IsLinear (row_key k b) (row_key k d) (row_key k c) f
    ∙ sym (less_by_key c d k)

-- Rows of which none is before the other compare as equal.
pub key_eq_of :
    (k : SortKey) (a b : PodRow)
    → less_by a b k ≡ false
    → less_by b a k ≡ false
    → key_eq (row_key k a) (row_key k b) ≡ true
key_eq_of k a b h g =
    eq_of_total key_ltb-IsLinear (row_key k a) (row_key k b) (sym (less_by_key a b k) ∙ h)
      (sym (less_by_key b a k) ∙ g)

pub less_by_asym : (k : SortKey) (a b : PodRow) → less_by a b k ≡ true → less_by b a k ≡ false
less_by_asym k a b h =
    less_by_key b a k
    ∙ key_ltb-IsLinear.asym (row_key k a) (row_key k b) (sym (less_by_key a b k) ∙ h)

pub less_by_trans :
    (k : SortKey) (a b c : PodRow)
    → less_by a b k ≡ true
    → less_by b c k ≡ true
    → less_by a c k ≡ true
less_by_trans k a b c h g =
    less_by_key a c k
    ∙ key_ltb-IsLinear.trans (row_key k a) (row_key k b) (row_key k c) (sym (less_by_key a b k) ∙ h)
        (sym (less_by_key b c k) ∙ g)

module _ (m : PodMap) (k : SortKey) (desc : Bool) where
  pub less_pod_uid_asym :
      (x y : String) → less_pod_uid m k desc x y ≡ true → less_pod_uid m k desc y x ≡ false
  unfolding less_pod_uid
  less_pod_uid_asym x y =
      ground (arith, less_by_asym k (m.rows x) (m.rows y), less_by_asym k (m.rows y) (m.rows x))

  pub less_pod_uid_trans :
      (x y z : String)
      → less_pod_uid m k desc x y ≡ true
      → less_pod_uid m k desc y z ≡ true
      → less_pod_uid m k desc x z ≡ true
  unfolding less_pod_uid
  less_pod_uid_trans x y z = ground (
    arith,
    less_by_trans k (m.rows x) (m.rows y) (m.rows z),
    less_by_trans k (m.rows z) (m.rows y) (m.rows x),
  )

  uid_same :
      (x y : String)
      → (m.rows x).uid ≡ x
      → (m.rows y).uid ≡ y
      → less_by (m.rows x) (m.rows y) k ≡ false
      → less_by (m.rows y) (m.rows x) k ≡ false
      → x ≡ y
  uid_same x y p q h g =
      let e : (m.rows x).uid ≡ (m.rows y).uid =
        (eq_iff (m.rows x).uid (m.rows y).uid).0
          (ground (arith, key_eq_of k (m.rows x) (m.rows y) h g)) in
      sym p ∙ e ∙ q

  -- Pods whose rows carry their own UIDs never tie.
  pub less_pod_uid_total :
      (own : (u : String) → has u m.uids ≡ true → (m.rows u).uid ≡ u) (x y : String)
      → has x m.uids ≡ true
      → has y m.uids ≡ true
      → str_eq x y ≡ false
      → less_pod_uid m k desc y x ≡ false
      → less_pod_uid m k desc x y ≡ true
  unfolding less_pod_uid
  less_pod_uid_total own x y p q n h = ground (arith, uid_same x y (own x p) (own y q), eq_iff x y)

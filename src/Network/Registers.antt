-- ===== src/Network/Registers.antt =====
-- internal/cluster/networkpoll.go, `tick`: how results are written over the samples of a node.
use kubetin.Common.{
  ◌≡◌, refl, sym, ap, ◌∙◌, ◌&&◌, String, Bool, true, false, inl, inr, Option, none, some, List, [],
  ◌∷◌, ◌++◌, str_eq, has, Distinct, if◌then◌else◌, arith, eq_iff, Bool-cases,
}
use kubetin.Network.Rates.{PodKey, same_pod, same_key, CounterSample, Samples, Baseline}
use kubetin.Network.Poll.{Reading, keep_result, scrape_nodes, tag, collect, put_all}

-- The samples of one node.
abbrev pub Register : Type 0
Register = PodKey → Option CounterSample

abbrev pub slot : String → Baseline → Register
slot n prev k = prev (record { node = n; pod = k })

abbrev pub fill : Reading → Register → Register
fill [] b = b
fill ((j, s) ∷ r) b = fill r (λ k. if same_pod j k then some s else b k)

abbrev pub fill_opt : Option Reading → Register → Register
fill_opt none b = b
fill_opt (some r) b = fill r b

abbrev pub empty_register : Register
empty_register k = none

str_eq_refl : (a : String) → str_eq a a ≡ true
str_eq_refl a = (eq_iff a a).1 refl

pub fill_cong :
    (r : Reading) (a b : Register)
    → ((k : PodKey) → a k ≡ b k)
    → (k : PodKey) → fill r a k ≡ fill r b k
fill_cong [] a b h k = h k
fill_cong ((j, s) ∷ r) a b h k =
    fill_cong r _ _
      (λ (i : PodKey). ap (λ (o : Option CounterSample). if same_pod j i then some s else o) (h i))
      k

put_all-append :
    (xs ys : Samples) (prev : Baseline) → put_all (xs ++ ys) prev ≡ put_all ys (put_all xs prev)
unfolding put_all
put_all-append [] ys prev = refl
put_all-append ((k, s) ∷ xs) ys prev =
    put_all-append xs ys (λ j. if same_key k j then some s else prev j)

same_key_self : (n : String) (j k : PodKey) → (str_eq n n && same_pod j k) ≡ same_pod j k
same_key_self n j k = rw (str_eq_refl n) refl

put_all-tag_self :
    (n : String) (r : Reading) (prev : Baseline) (k : PodKey)
    → slot n (put_all (tag n r) prev) k ≡ fill r (slot n prev) k
unfolding put_all
put_all-tag_self n [] prev k = refl
put_all-tag_self n ((j, s) ∷ r) prev k =
    put_all-tag_self n r (λ i. if same_key (record { node = n; pod = j }) i then some s else prev i)
      k
    ∙ fill_cong r _ _
        (λ (i : PodKey).
          ap (λ (b : Bool). if b then some s else slot n prev i) (same_key_self n j i))
        k

put_all-tag_other :
    (m n : String) (r : Reading) (prev : Baseline) (k : PodKey)
    → str_eq m n ≡ false
    → slot n (put_all (tag m r) prev) k ≡ slot n prev k
unfolding put_all
put_all-tag_other m n [] prev k h = refl
put_all-tag_other m n ((j, s) ∷ r) prev k h =
    put_all-tag_other m n r
      (λ i. if same_key (record { node = m; pod = j }) i then some s else prev i) k h
    ∙ rw (h) refl

unfoldable put_opt : String → Option Reading → Baseline → Baseline
put_opt m none prev = prev
put_opt m (some r) prev = put_all (tag m r) prev

-- The results of the first node go in first.
put_all-keep_result :
    (m : String) (o : Option Reading) (rest : List (String × Reading)) (prev : Baseline)
    → put_all (collect (keep_result m o rest)) prev ≡ put_all (collect rest) (put_opt m o prev)
unfolding collect put_opt
put_all-keep_result m none rest prev = refl
put_all-keep_result m (some r) rest prev = put_all-append (tag m r) (collect rest) prev

put_opt_self :
    (n : String) (o : Option Reading) (prev : Baseline) (k : PodKey)
    → slot n (put_opt n o prev) k ≡ fill_opt o (slot n prev) k
unfolding put_opt
put_opt_self n none prev k = refl
put_opt_self n (some r) prev k = put_all-tag_self n r prev k

put_opt_other :
    (m n : String) (o : Option Reading) (prev : Baseline) (k : PodKey)
    → str_eq m n ≡ false
    → slot n (put_opt m o prev) k ≡ slot n prev k
unfolding put_opt
put_opt_other m n none prev k h = refl
put_opt_other m n (some r) prev k h = put_all-tag_other m n r prev k h

pub fill_opt_cong :
    (o : Option Reading) (a b : Register)
    → ((k : PodKey) → a k ≡ b k)
    → (k : PodKey) → fill_opt o a k ≡ fill_opt o b k
fill_opt_cong none a b h k = h k
fill_opt_cong (some r) a b h k = fill_cong r a b h k

module _ (scrape : String → Option Reading) (n : String) where
  -- The samples of a node that is not among the names are left alone.
  pub put_all-absent :
      (names : List String) (prev : Baseline) (k : PodKey)
      → has n names ≡ false
      → slot n (put_all (collect (scrape_nodes scrape names)) prev) k ≡ slot n prev k
  unfolding collect scrape_nodes put_all
  put_all-absent [] prev k h = refl
  put_all-absent (m ∷ names) prev k h =
      let other : str_eq m n ≡ false = ground arith in
      let rest : has n names ≡ false = ground arith in
      ap (λ (b : Baseline). slot n b k)
        (put_all-keep_result m (scrape m) (scrape_nodes scrape names) prev)
      ∙ put_all-absent names (put_opt m (scrape m) prev) k rest
      ∙ put_opt_other m n (scrape m) prev k other

  pub put_all-read :
      (names : List String) (prev : Baseline) (k : PodKey)
      → Distinct names
      → has n names ≡ true
      → slot n (put_all (collect (scrape_nodes scrape names)) prev) k
        ≡ fill_opt (scrape n) (slot n prev) k
  unfolding collect scrape_nodes put_all
  put_all-read [] prev k d h = ground arith
  put_all-read (m ∷ names) prev k (fresh, d) h =
      ap (λ (b : Baseline). slot n b k)
        (put_all-keep_result m (scrape m) (scrape_nodes scrape names) prev)
      ∙ elim (Bool-cases (str_eq m n)) [
        | inl e ↦
            let same : m ≡ n = (eq_iff m n).0 e in
            put_all-absent names (put_opt m (scrape m) prev) k
              (ap (λ (x : String). has x names) (sym same) ∙ fresh)
            ∙ ap (λ (x : String). slot n (put_opt x (scrape x) prev) k) same
            ∙ put_opt_self n (scrape n) prev k
        | inr e ↦
            put_all-read names (put_opt m (scrape m) prev) k d (ground arith)
            ∙ fill_opt_cong (scrape n) _ _ (λ (i : PodKey). put_opt_other m n (scrape m) prev i e) k
      ]

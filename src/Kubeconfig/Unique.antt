-- ===== src/Kubeconfig/Unique.antt =====
-- internal/kubeconfig/discover.go: every context gets a name, and no two the same.
use kubetin.Common.{
  Distinct, ℕ, zero, suc, ◌+◌, ◌≤◌, ◌<◌, ◌≡◌, ◌⊎◌, refl, sym, ap, ◌∙◌, String, true, false, Option,
  none, some, List, [], ◌∷◌, map, length, has, str_eq, ◌==◌, if◌then◌else◌, All, arith, eq_iff,
  Bool-cases, inl, inr, if-case,
}
use kubetin.Kubeconfig.Names.{
  ContextRef, Texts, ref_by_name, occurrences, raw_names, names, candidates_of, first_free,
  first_number, or_number, name_one, assign_from, all_candidates, assign_context_names, labelled,
  id,
}

-- The texts without one.
abbrev drop_text : String → List String → List String
drop_text s [] = []
drop_text s (t ∷ ts) = let rest = drop_text s ts in if str_eq t s then rest else t ∷ rest

length-drop_text : (s : String) (ts : List String) → length (drop_text s ts) ≤ length ts
length-drop_text s [] = omega arith
length-drop_text s (t ∷ ts) = ground (arith, length-drop_text s ts)

length-drop_text_lt :
    (s : String) (ts : List String) → has s ts ≡ true → length (drop_text s ts) < length ts
length-drop_text_lt s [] h = cc
length-drop_text_lt s (t ∷ ts) h = ground (arith, length-drop_text s ts, length-drop_text_lt s ts)

has-drop_text :
    (s u : String) (ts : List String) → str_eq s u ≡ false → has u (drop_text s ts) ≡ has u ts
has-drop_text s u [] h = refl
has-drop_text s u (t ∷ ts) h = ground (arith, has-drop_text s u ts h, eq_iff t s, eq_iff t u)

has-occurrences : (s : String) (ts : List String) → occurrences s ts ≡ 0 → has s ts ≡ false
has-occurrences s [] h = refl
has-occurrences s (t ∷ ts) h = ground (arith, has-occurrences s ts)

-- A context keeps a raw name that is unique, or gets a name that is not taken.
abbrev NameFits : List String → List String → ContextRef → String → Type 0
NameFits raws used r n =
    ((occurrences r.raw_name raws ≡ 1) × (n ≡ r.raw_name)) ⊎ (has n used ≡ false)

abbrev IsNamed : List String → List String → ContextRef → Option String → Type 0
IsNamed raws used r o = (n : String) × (o ≡ some n) × NameFits raws used r n

module _ (t : Texts)
    (numbered_injective : (base : String) (m n : ℕ)
      → t.numbered base m ≡ t.numbered base n
      → m ≡ n) where
  -- A number that no earlier one of the search is spoils nothing.
  first_number-drop :
      (fuel n k : ℕ) (base : String) (used : List String)
      → k < n
      → first_number t fuel n base (drop_text (t.numbered base k) used)
        ≡ first_number t fuel n base used
  unfolding first_number
  first_number-drop zero n k base used lt = refl
  first_number-drop (suc fuel) n k base used lt = simp (
    has-drop_text (t.numbered base k) (t.numbered base n) used apart,
    first_number-drop fuel (n + 1) k base used (omega arith),
  )
    where
      apart : str_eq (t.numbered base k) (t.numbered base n) ≡ false
      apart = elim (Bool-cases (str_eq (t.numbered base k) (t.numbered base n))) [
        | inr h ↦ h
        | inl h ↦
            let same =
              numbered_injective base k n ((eq_iff (t.numbered base k) (t.numbered base n)).0 h) in
            absurd (omega arith)
      ]

  -- More numbers than names: one is free.
  first_number-Fresh :
      (fuel n : ℕ) (base : String) (used : List String)
      → length used < fuel
      → (m : String) × (first_number t fuel n base used ≡ some m)
  unfolding first_number
  first_number-Fresh zero n base used lt = absurd (omega arith)
  first_number-Fresh (suc fuel) n base used lt = elim (Bool-cases (has (t.numbered base n) used)) [
    | inr free ↦ (t.numbered base n, simp free)
    | inl taken ↦
        let (m, e) =
          first_number-Fresh fuel (n + 1) base (drop_text (t.numbered base n) used)
            (omega (arith, length-drop_text_lt (t.numbered base n) used taken)) in
        (m, simp taken (sym (first_number-drop fuel (n + 1) n base used (omega arith)) ∙ e))
  ]

  first_number-has :
      (fuel n : ℕ) (base : String) (used : List String) (m : String)
      → first_number t fuel n base used ≡ some m
      → has m used ≡ false
  unfolding first_number
  first_number-has zero n base used m h = cc
  first_number-has (suc fuel) n base used m h = elim (Bool-cases (has (t.numbered base n) used)) [
    | inl taken ↦ first_number-has fuel (n + 1) base used m (simp taken at h)
    | inr free ↦ ground (arith, free, h)
  ]

  first_free-has :
      (all used cs : List String) (c : String)
      → first_free t all used cs ≡ some c
      → has c used ≡ false
  unfolding first_free
  first_free-has all used [] c h = cc
  first_free-has all used (d ∷ cs) c h = ground (arith, first_free-has all used cs c)

  name_one-IsNamed :
      (raws all used : List String) (r : ContextRef)
      → IsNamed raws used r (name_one t raws all used r)
  unfolding name_one
  name_one-IsNamed raws all used r =
      if-case (IsNamed raws used r) (occurrences r.raw_name raws == 1)
        (λ unique. (r.raw_name, refl, inl (ground (arith, unique), refl)))
        (λ _. labelled_or_numbered (first_free t all used (candidates_of t raws r)) refl)
    where
      base : String
      base = labelled t r.raw_name r.file

      labelled_or_numbered :
          (o : Option String)
          → first_free t all used (candidates_of t raws r) ≡ o
          → IsNamed raws used r (or_number t o (first_number t (suc (length used)) 2 base used))
      labelled_or_numbered (some c) e = (c, refl, inr (first_free-has all used _ c e))
      labelled_or_numbered none e =
          let (m, f) = first_number-Fresh (suc (length used)) 2 base used (omega arith) in
          (m, f, inr (first_number-has (suc (length used)) 2 base used m f))

-- Facts about every context of a list.
All-map {ℓ κ μ} :
    {A : Type ℓ} {P : A → Type κ} {Q : A → Type μ} (xs : List A)
    → ((x : A) → P x → Q x)
    → All P xs
    → All Q xs
All-map [] f h = tt
All-map (x ∷ xs) f h = (f x h.0, All-map xs f h.1)

All-both {ℓ κ μ} :
    {A : Type ℓ} (P : A → Type κ) (Q : A → Type μ) (xs : List A)
    → All P xs
    → All Q xs
    → All (λ x. P x × Q x) xs
All-both P Q [] h k = tt
All-both P Q (x ∷ xs) h k = ((h.0, k.0), All-both P Q xs h.1 k.1)

raws_occur : (rs : List ContextRef) → All (λ r. 1 ≤ occurrences r.raw_name (raw_names rs)) rs
raws_occur [] = tt
raws_occur (r ∷ rs) =
    (ground (arith, eq_iff r.raw_name r.raw_name), All-map rs (λ x h. ground arith) (raws_occur rs))

avoids :
    (n : String) (given ms : List String)
    → All (λ m. has m (n ∷ given) ≡ false) ms
    → (has n ms ≡ false) × All (λ m. has m given ≡ false) ms
avoids n given [] h = (refl, tt)
avoids n given (m ∷ ms) h =
    let (later, all) = avoids n given ms h.1 in
    (ground (arith, h.0, later, eq_iff n m, eq_iff m n), (ground (arith, h.0), all))

-- The state of the naming loop: `given` are the names so far, `rs` the contexts left.
record Naming (raws given used : List String) (rs : List ContextRef) : Type 0 where
  taken : (n : String) → has n given ≡ true → has n used ≡ true
  reserved : All (λ r. has r.raw_name used ≡ true) rs
  within : (n : String) → occurrences n (raw_names rs) ≤ occurrences n raws
  unused : All (λ r. occurrences r.raw_name raws ≡ 1 → has r.raw_name given ≡ false) rs

module _ (raws given used : List String) (r : ContextRef) (rs : List ContextRef)
    (s : Naming raws given used (r ∷ rs)) (n : String) (fits : NameFits raws used r n) where
  name-fresh : has n given ≡ false
  name-fresh = go fits
    where
      go : NameFits raws used r n → has n given ≡ false
      go (inl (once, e)) = rw e (s.unused.0 once)
      go (inr free) = elim (Bool-cases (has n given)) [ inl h ↦ cc (s.taken n h) | inr h ↦ h ]

  -- A unique raw name of a later context is not the name just given.
  later-apart :
      (x : ContextRef)
      → has x.raw_name used ≡ true
      → 1 ≤ occurrences x.raw_name (raw_names rs)
      → occurrences x.raw_name raws ≡ 1
      → str_eq n x.raw_name ≡ false
  later-apart x kept occurs once = elim (Bool-cases (str_eq n x.raw_name)) [
    | inr h ↦ h
    | inl h ↦ absurd (clash fits ((eq_iff n x.raw_name).0 h))
  ]
    where
      clash : NameFits raws used r n → n ≡ x.raw_name → ⊥
      clash (inl (_, e)) same =
          ground (arith, s.within x.raw_name, eq_iff r.raw_name x.raw_name, sym e ∙ same)
      clash (inr free) same = cc (ap (λ m. has m used) same)

  next-Naming : Naming raws (n ∷ given) (n ∷ used) rs
  next-Naming = record {
    taken = λ m h. ground (arith, s.taken m);
    reserved = All-map rs (λ x h. ground arith) s.reserved.1;
    within = λ m. ground (arith, s.within m);
    unused =
        All-map rs (λ x h once. ground (arith, later-apart x h.0 h.1.0 once, h.1.1 once))
          (All-both _ _ rs s.reserved.1 (All-both _ _ rs (raws_occur rs) s.unused.1));
  }

abbrev Assigned : List String → List ContextRef → Option (List ContextRef) → Type 0
Assigned given rs o =
    (out : List ContextRef) × (o ≡ some out)
    × (map id out ≡ map id rs)
    × All (λ m. has m given ≡ false) (names out)
    × Distinct (names out)

module _ (t : Texts)
    (numbered_injective : (base : String) (m n : ℕ)
      → t.numbered base m ≡ t.numbered base n
      → m ≡ n) where
  assign_from-Assigned :
      (raws all given used : List String) (rs : List ContextRef)
      → Naming raws given used rs
      → Assigned given rs (assign_from t raws all used rs)
  unfolding assign_from id
  assign_from-Assigned raws all given used [] s = ([], refl, refl, tt, tt)
  assign_from-Assigned raws all given used (r ∷ rs) s =
      let (n, e, fits) = name_one-IsNamed t numbered_injective raws all used r in
      let (out, f, same, apart, distinct) =
        assign_from-Assigned raws all (n ∷ given) (n ∷ used) rs
          (next-Naming raws given used r rs s n fits) in
      let (alone, rest) = avoids n given (names out) apart in
      (
        record r { name = n } ∷ out,
        simp (e, f),
        cc same,
        (name-fresh raws given used r rs s n fits, rest),
        (alone, distinct),
      )

  raws-reserved : (rs : List ContextRef) → All (λ r. has r.raw_name (raw_names rs) ≡ true) rs
  raws-reserved [] = tt
  raws-reserved (r ∷ rs) = (
    ground (arith, eq_iff r.raw_name r.raw_name),
    All-map rs (λ x h. ground arith) (raws-reserved rs),
  )

  -- Where the numbered labels of one base differ from number to number, every list of contexts gets
  -- its names: the search for a free number ends. The contexts stay the same, in their order, by
  -- file and raw name, and no two of the names given are equal.
  pub assign_context_names-Distinct :
      (rs : List ContextRef)
      → (out : List ContextRef) × (assign_context_names t rs ≡ some out)
        × (map id out ≡ map id rs)
        × Distinct (names out)
  unfolding assign_context_names
  assign_context_names-Distinct rs =
      let (out, e, same, _, distinct) =
        assign_from-Assigned (raw_names rs) (all_candidates t (raw_names rs) rs) [] (raw_names rs)
          rs
          (record {
            taken = λ n h. cc;
            reserved = raws-reserved rs;
            within = λ n. omega arith;
            unused = All-map rs (λ r h once. refl) (raws-reserved rs);
          }) in
      (out, e, same, distinct)

unequal-names :
    (n : String) (rs : List ContextRef)
    → has n (names rs) ≡ false
    → All (λ x. str_eq n x.name ≡ false) rs
unequal-names n [] h = tt
unequal-names n (x ∷ rs) h =
    (ground (arith, eq_iff n x.name, eq_iff x.name n), unequal-names n rs (ground arith))

-- A list whose names differ resolves each of its names to its own context.
pub ref_by_name-Distinct :
    (rs : List ContextRef) → Distinct (names rs) → All (λ r. ref_by_name rs r.name ≡ some r) rs
unfolding ref_by_name
ref_by_name-Distinct [] h = tt
ref_by_name-Distinct (r ∷ rs) h = (
  ground (arith, eq_iff r.name r.name),
  All-map rs (λ x k. ground (arith, k.0, k.1))
      (All-both _ _ rs (unequal-names r.name rs h.0) (ref_by_name-Distinct rs h.1)),
)

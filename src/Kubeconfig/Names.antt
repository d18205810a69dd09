-- ===== src/Kubeconfig/Names.antt =====
-- internal/kubeconfig/discover.go: `ContextRef`, `assignContextNames`, `pathTails`, `RefByName`.
--
-- The functions of path/filepath, and `fmt.Sprintf("%s [%d]", base, n)`, are the record `Texts`.
use Prim.Native.String.{◌++◌ as join, count}
use kubetin.Common.{
  ℕ, zero, suc, ◌+◌, String, not, ◌&&◌, Option, none, some, List, [], ◌∷◌, ◌++◌, map, length, has,
  str_eq, ◌==◌, if◌then◌else◌,
}

pub record ContextRef : Type 0 where
  pub name : String
  pub raw_name : String
  pub file : String
  pub namespace : String

pub record ContextId : Type 0 where
  pub file : String
  pub raw_name : String

unfoldable pub id : ContextRef → ContextId
id r = record { file = r.file; raw_name = r.raw_name }

pub record Texts : Type 0 where
  pub base : String → String
  pub dir : String → String
  pub join_path : String → String → String
  pub numbered : String → ℕ → String

-- How often a text occurs.
abbrev pub occurrences : String → List String → ℕ
occurrences s [] = 0
occurrences s (t ∷ ts) = let rest = occurrences s ts in if str_eq t s then suc rest else rest

abbrev pub raw_names : List ContextRef → List String
raw_names rs = map (λ r. r.raw_name) rs

abbrev pub names : List ContextRef → List String
names rs = map (λ r. r.name) rs

module _ (t : Texts) where
  -- The loop of `pathTails` from the directory `dir`, with the last tail so far. Without fuel it ends
  -- as at the root; a path has fewer directories than characters.
  unfoldable pub tails_from : ℕ → String → String → String → List String
  tails_from zero path dir last = path ∷ []
  tails_from (suc fuel) path dir last =
      let next = t.join_path (t.base dir) last in
      let onward = next ∷ tails_from fuel path (t.dir dir) next in
      if str_eq (t.dir dir) dir then path ∷ [] else onward

  unfoldable pub path_tails : String → List String
  unfolding tails_from
  path_tails path = t.base path ∷ tails_from (suc (count path)) path (t.dir path) (t.base path)

  -- `r.RawName + " (" + tail + ")"`
  abbrev pub labelled : String → String → String
  labelled raw tail = join raw (join " (" (join tail ")"))

  -- The labels tried for a context, none if its raw name is unique.
  unfoldable pub candidates_of : List String → ContextRef → List String
  unfolding path_tails
  candidates_of raws r =
      if occurrences r.raw_name raws == 1 then [] else map (labelled r.raw_name) (path_tails r.file)

  unfoldable pub all_candidates : List String → List ContextRef → List String
  unfolding candidates_of
  all_candidates raws [] = []
  all_candidates raws (r ∷ rs) = candidates_of raws r ++ all_candidates raws rs

  -- The first label that no other context has, and that is not taken.
  unfoldable pub first_free : List String → List String → List String → Option String
  first_free all used [] = none
  first_free all used (c ∷ cs) =
      if (occurrences c all == 1) && not (has c used) then some c else first_free all used cs

  -- `for n := 2; ; n++`; `none` means that the fuel ran out.
  unfoldable pub first_number : ℕ → ℕ → String → List String → Option String
  first_number zero n base used = none
  first_number (suc fuel) n base used =
      let onward = first_number fuel (n + 1) base used in
      if has (t.numbered base n) used then onward else some (t.numbered base n)

  abbrev pub or_number : Option String → Option String → Option String
  or_number none other = other
  or_number (some c) other = some c

  -- The name of one context; `used` holds fewer names than the fuel.
  unfoldable pub name_one : List String → List String → List String → ContextRef → Option String
  unfolding candidates_of first_free first_number
  name_one raws all used r =
      if occurrences r.raw_name raws == 1
      then some r.raw_name
      else or_number (first_free all used (candidates_of raws r))
          (first_number (suc (length used)) 2 (labelled r.raw_name r.file) used)

  abbrev pub with_name :
      ContextRef → Option String → (String → Option (List ContextRef)) → Option (List ContextRef)
  with_name r none rest = none
  with_name r (some n) rest = elim (rest n) [
    | none ↦ none
    | some rs ↦ some (record r { name = n } ∷ rs)
  ]

  unfoldable pub assign_from :
      List String → List String → List String → List ContextRef → Option (List ContextRef)
  unfolding name_one
  assign_from raws all used [] = some []
  assign_from raws all used (r ∷ rs) =
      with_name r (name_one raws all used r) (λ n. assign_from raws all (n ∷ used) rs)

  unfoldable pub assign_context_names : List ContextRef → Option (List ContextRef)
  unfolding assign_from all_candidates
  assign_context_names rs =
      assign_from (raw_names rs) (all_candidates (raw_names rs) rs) (raw_names rs) rs

unfoldable pub ref_by_name : List ContextRef → String → Option ContextRef
ref_by_name [] name = none
ref_by_name (r ∷ rs) name = if str_eq r.name name then some r else ref_by_name rs name

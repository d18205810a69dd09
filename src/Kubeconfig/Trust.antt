-- ===== src/Kubeconfig/Trust.antt =====
-- internal/kubeconfig/trust.go and discover.go, cmd/kubetin/trust.go: the allow-list of kubeconfig
-- contents, and the start that reads only allowed files.
--
-- The disk may change while the user is asked: a `Disk` is what the program sees of it at one time,
-- the candidate files and the hash of each file that can be read. The map of hashes is a list of its
-- pairs. The text of the trust file, which `LoadTrustList` and `Save` read and write, is left out.
use kubetin.Common.{
  String, Bool, true, false, not, ◌&&◌, ◌||◌, Option, none, some, List, [], ◌∷◌, str_eq,
  if◌then◌else◌, ◌⊎◌, inl, inr,
}

pub record TrustList : Type 0 where
  pub path : String
  pub hashes : List (String × String)
  pub existed : Bool

pub data Answer {ℓ} (A : Type ℓ) : Type ℓ where
  ok : A → Answer A
  failed : String → Answer A

pub record Disk : Type 0 where
  pub files : Answer (List String)
  pub hash_file : String → Option String

unfoldable pub has_hash : String → List (String × String) → Bool
has_hash h [] = false
has_hash h ((k, p) ∷ m) = str_eq k h || has_hash h m

abbrev pub has_path : String → List (String × String) → Bool
has_path path [] = false
has_path path ((k, p) ∷ m) = str_eq p path || has_path path m

-- `t.hashes[h] = path`
unfoldable pub put : String → String → List (String × String) → List (String × String)
put h path [] = (h, path) ∷ []
put h path ((k, p) ∷ m) = if str_eq k h then (h, path) ∷ m else (k, p) ∷ put h path m

abbrev pub knows : TrustList → Option String → Bool
unfolding has_hash
knows t none = false
knows t (some h) = has_hash h t.hashes

unfoldable pub is_trusted : Disk → TrustList → String → Bool
is_trusted disk t path = knows t (disk.hash_file path)

unfoldable pub has_known_path : TrustList → String → Bool
has_known_path t path = has_path path t.hashes

abbrev pub put_found : String → Option String → TrustList → TrustList
unfolding put
put_found path none t = t
put_found path (some h) t = record t { hashes = put h path t.hashes }

-- A file that cannot be read is skipped: both callers go on behind the error.
unfoldable pub add : Disk → String → TrustList → TrustList
add disk path t = put_found path (disk.hash_file path) t

unfoldable pub add_all : Disk → List String → TrustList → TrustList
unfolding add
add_all disk [] t = t
add_all disk (f ∷ fs) t = add_all disk fs (add disk f t)

unfoldable pub trusted_files : Disk → TrustList → List String → List String
unfolding is_trusted
trusted_files disk t [] = []
trusted_files disk t (f ∷ fs) =
    let rest = trusted_files disk t fs in if is_trusted disk t f then f ∷ rest else rest

unfoldable pub untrusted_files : Disk → TrustList → List String → List String
unfolding is_trusted
untrusted_files disk t [] = []
untrusted_files disk t (f ∷ fs) =
    let rest = untrusted_files disk t fs in if is_trusted disk t f then rest else f ∷ rest

-- The result of `PartitionFiles`.
unfoldable pub partition_files : Disk → TrustList → List String → List String × List String
unfolding trusted_files untrusted_files
partition_files disk t fs = (trusted_files disk t fs, untrusted_files disk t fs)

-- `loaded` are the files that `discoverFiles` reads with their credentials and plugins.
pub record Discovered : Type 0 where
  pub files : List String
  pub loaded : List String

pub data StartError : Type 0 where
  no_files : StartError
  unreadable_list : String → StartError
  discovery_failed save_failed prompt_failed : String → StartError
  aborted : StartError

pub data Discovery : Type 0 where
  discovered : Discovered → List String → Discovery
  no_discovery : StartError → Discovery

-- With nothing trusted, no file is loaded.
abbrev pub load_trusted : List String → List String × List String → Discovery
load_trusted files ([], untrusted) = discovered (record { files = files; loaded = [] }) untrusted
load_trusted files (f ∷ fs, untrusted) =
    discovered (record { files = f ∷ fs; loaded = f ∷ fs }) untrusted

abbrev pub discover_in : Disk → TrustList → Answer (List String) → Discovery
unfolding partition_files
discover_in disk t (failed e) = no_discovery (discovery_failed e)
discover_in disk t (ok []) = no_discovery no_files
discover_in disk t (ok (f ∷ fs)) = load_trusted (f ∷ fs) (partition_files disk t (f ∷ fs))

unfoldable pub discover_trusted : Disk → TrustList → Discovery
unfolding partition_files
discover_trusted disk t = discover_in disk t disk.files

-- How a start ends, and the list that it saved, if it saved one.
pub record Start : Type 0 where
  pub outcome : Discovered ⊎ StartError
  pub saved : Option TrustList

-- What the start meets: the list that `LoadTrustList` gives and its error, the disk at the first
-- discovery, at the additions and at the second discovery, the user's answers to the two prompts,
-- and the error of `Save`.
pub record Session : Type 0 where
  pub list : TrustList
  pub load_error : Option String
  pub before : Disk
  pub adding : Disk
  pub after : Disk
  pub prompt_all : List String → Answer Bool
  pub prompt_changes : List String → List String → Answer Bool
  pub save_error : TrustList → Option String

abbrev pub refuse : StartError → Start
refuse e = record { outcome = inr e; saved = none }

abbrev pub or_empty : Option String → String
or_empty none = ""
or_empty (some e) = e

abbrev pub is_failure : Option String → Bool
is_failure none = false
is_failure (some e) = true

unfoldable pub changed_files : TrustList → List String → List String
unfolding has_known_path
changed_files t [] = []
changed_files t (f ∷ fs) =
    let rest = changed_files t fs in if has_known_path t f then f ∷ rest else rest

unfoldable pub added_files : TrustList → List String → List String
unfolding has_known_path
added_files t [] = []
added_files t (f ∷ fs) =
    let rest = added_files t fs in if has_known_path t f then rest else f ∷ rest

abbrev pub second_discovery : TrustList → Discovery → Start
second_discovery t (discovered d untrusted) = record { outcome = inl d; saved = some t }
second_discovery t (no_discovery e) = record { outcome = inr e; saved = some t }

-- Behind a "yes": bless, save, discover again.
unfoldable pub bless : Session → List String → Start
unfolding add_all discover_trusted
bless s untrusted =
    let t = add_all s.adding untrusted s.list in
    elim (s.save_error t) [
      | some e ↦ refuse (save_failed e)
      | none ↦ second_discovery t (discover_trusted s.after t)
    ]

unfoldable pub on_answer : Session → List String → Answer Bool → Start
unfolding bless
on_answer s untrusted (failed e) = refuse (prompt_failed e)
on_answer s untrusted (ok false) = refuse aborted
on_answer s untrusted (ok true) = bless s untrusted

-- The prompt of a first run, or the one that tells changed files from new ones.
unfoldable pub ask : Session → List String → Answer Bool
unfolding changed_files added_files
ask s untrusted =
    if not s.list.existed
    then s.prompt_all untrusted
    else s.prompt_changes (changed_files s.list untrusted) (added_files s.list untrusted)

unfoldable pub first_discovery : Session → Discovery → Start
unfolding on_answer ask
first_discovery s (no_discovery e) = refuse e
first_discovery s (discovered d []) = record { outcome = inl d; saved = none }
first_discovery s (discovered d (f ∷ fs)) = on_answer s (f ∷ fs) (ask s (f ∷ fs))

unfoldable pub load_trusted_discovery : Session → Start
unfolding first_discovery discover_trusted
load_trusted_discovery s =
    if is_failure s.load_error && s.list.existed
    then refuse (unreadable_list (or_empty s.load_error))
    else first_discovery s (discover_trusted s.before s.list)

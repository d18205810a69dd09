-- ===== src/Kubeconfig/Start.antt =====
-- cmd/kubetin/trust.go: a start reads only files whose content is on the list, and adds to the list
-- only with the user's consent.
use kubetin.Common.{◌≡◌, ◌⊎◌, inl, inr, String, true, false, Option, none, some, List, All}
use kubetin.Kubeconfig.Trust.{
  TrustList, ok, Disk, is_trusted, add_all, Discovered, StartError, Discovery, discovered,
  no_discovery, Start, Session, ask,
}

abbrev pub AllTrusted : Disk → TrustList → List String → Type 0
AllTrusted disk t fs = All (λ f. is_trusted disk t f ≡ true) fs

abbrev pub NoneTrusted : Disk → TrustList → List String → Type 0
NoneTrusted disk t fs = All (λ f. is_trusted disk t f ≡ false) fs

-- What a discovery may give: trusted files loaded, untrusted ones named.
abbrev Discovers : Disk → TrustList → Discovery → Type 0
Discovers disk t (no_discovery e) = Unit
Discovers disk t (discovered d untrusted) =
    AllTrusted disk t d.loaded × NoneTrusted disk t untrusted

module _ (s : Session) where
  -- The user said yes to these files, none of which was trusted, and the list is theirs added.
  pub record Consented (t : TrustList) : Type 0 where
    pub asked : List String
    pub answered : ask s asked ≡ ok true
    pub unknown : NoneTrusted s.before s.list asked
    pub result : t ≡ add_all s.adding asked s.list

  -- The files loaded are on the list that was read, or on the one that was saved.
  abbrev pub LoadsTrusted : Option TrustList → List String → Type 0
  LoadsTrusted none loaded = AllTrusted s.before s.list loaded
  LoadsTrusted (some t) loaded = AllTrusted s.after t loaded

  abbrev pub SavesConsented : Option TrustList → Type 0
  SavesConsented none = Unit
  SavesConsented (some t) = Consented t

  abbrev pub LoadsSafely : Option TrustList → Discovered ⊎ StartError → Type 0
  LoadsSafely saved (inl d) = LoadsTrusted saved d.loaded
  LoadsSafely saved (inr e) = Unit

  abbrev pub IsSafe : Start → Type 0
  IsSafe r = LoadsSafely r.saved r.outcome × SavesConsented r.saved

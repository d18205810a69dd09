-- ===== src/Drain/Verified.antt =====
-- internal/cluster/nodeops.go: the preflight lets only verified pods through, cache and all.
use kubetin.Common.{
  leb, count_if, Bool, ◌&&◌, ◌≡◌, ◌≢◌, refl, sym, ap, ◌∙◌, String, true, false, not, ◌||◌, Option,
  none, some, List, [], ◌∷◌, str_eq, if◌then◌else◌, update, All, arith, eq_iff, Bool-cases, inl,
  inr, Option-cases, if-case, subst,
}
use kubetin.Drain.Preflight.{
  Volume, OwnerRef, Pod, GroupVersion, ApiResource, Controller, Answer, ok, failed, Api,
  ObjectReference, same_reference, is_checked, DrainPreflight, new_preflight, is_skipped,
  is_mirror_pod, is_daemon_set_owned, owned_by_daemon_set, is_set, is_completed, PodPhase,
  pod_pending, pod_running, pod_succeeded, pod_failed, pod_unknown, first_empty_dir, find_resource,
  is_empty_text, reference_of, Checked, judge, discovery_path, scope_of, verify, with_listing,
  with_version, check_owner, check, Listing, listed, refuses, with_pod, after_check, list_from,
  list_drainable_pods,
}

same_reference-eq : (a b : ObjectReference) → same_reference a b ≡ true → a ≡ b
same_reference-eq a b h = ground (
  arith,
  eq_iff a.api_version b.api_version,
  eq_iff a.kind b.kind,
  eq_iff a.namespace b.namespace,
  eq_iff a.name b.name,
  eq_iff a.uid b.uid,
)

-- No volume of the pod is an emptyDir.
abbrev pub NoLocalData : List Volume → Type 0
NoLocalData vs = All (λ v. v.empty_dir ≡ false) vs

first_empty_dir-NoLocalData : (vs : List Volume) → first_empty_dir vs ≡ none → NoLocalData vs
unfolding first_empty_dir
first_empty_dir-NoLocalData [] h = tt
first_empty_dir-NoLocalData (v ∷ vs) h =
    (ground arith, first_empty_dir-NoLocalData vs (ground arith))

ok-injective : {A : Type 0} {a b : A} → ok a ≡ ok b → a ≡ b
ok-injective h = cc

-- The owner that manages the pod is a DaemonSet.
abbrev pub manages : Option Bool → Bool
manages none = false
manages (some false) = false
manages (some true) = true

abbrev pub is_daemon_owner : OwnerRef → Bool
is_daemon_owner o = manages o.controller && str_eq o.kind "DaemonSet"

abbrev pub has_finished : PodPhase → Bool
has_finished pod_pending = false
has_finished pod_running = false
has_finished pod_succeeded = true
has_finished pod_failed = true
has_finished pod_unknown = false

abbrev pub is_left_alone : Pod → Bool
is_left_alone p =
    p.mirror_annotation
    || leb 1 (count_if is_daemon_owner p.owner_references)
    || has_finished p.phase

-- The pods that the drain is about, in the order of the API's list: no mirrors, no pods of a DaemonSet,
-- none that has finished.
abbrev pub drainable : List Pod → List Pod
drainable [] = []
drainable (p ∷ ps) = if is_left_alone p then drainable ps else p ∷ drainable ps

is_set-manages : (c : Option Bool) → is_set c ≡ manages c
is_set-manages none = refl
is_set-manages (some false) = refl
is_set-manages (some true) = refl

owned_by_daemon_set-count :
    (refs : List OwnerRef) → owned_by_daemon_set refs ≡ leb 1 (count_if is_daemon_owner refs)
unfolding owned_by_daemon_set
owned_by_daemon_set-count [] = refl
owned_by_daemon_set-count (r ∷ refs) =
    ground (arith, owned_by_daemon_set-count refs, is_set-manages r.controller)

is_completed-has_finished : (p : PodPhase) → is_completed p ≡ has_finished p
is_completed-has_finished pod_pending = refl
is_completed-has_finished pod_running = refl
is_completed-has_finished pod_succeeded = refl
is_completed-has_finished pod_failed = refl
is_completed-has_finished pod_unknown = refl

is_skipped-is_left_alone : (p : Pod) → is_skipped p ≡ is_left_alone p
unfolding is_skipped is_mirror_pod is_daemon_set_owned
is_skipped-is_left_alone p =
    rw (owned_by_daemon_set-count p.owner_references, is_completed-has_finished p.phase) refl

module _ (api : Api) where
  -- The controller that a key names exists under the key's UID and is not being deleted.
  pub record Exists (key : ObjectReference) : Type 0 where
    pub gv : GroupVersion
    pub resources : List ApiResource
    pub resource : ApiResource
    pub controller : Controller
    pub parsed : api.parse_group_version key.api_version ≡ ok gv
    pub discovered : api.discover (discovery_path api gv) ≡ ok resources
    pub found : find_resource key.kind resources ≡ some resource
    pub got :
        api.get_controller gv resource.name (scope_of api resource key) key.name ≡ ok controller
    pub same_uid : controller.uid ≡ key.uid
    pub has_uid : key.uid ≢ ""
    pub live : controller.deleting ≡ false

  -- Eviction deletes no local data, and a live controller recreates the pod.
  pub record Verified (pod : Pod) : Type 0 where
    pub no_local_data : NoLocalData pod.volumes
    pub owner : OwnerRef
    pub owned : api.get_controller_of pod ≡ some owner
    pub exists : Exists (reference_of pod owner)

  -- The caches hold what the API answers.
  record IsSound (st : DrainPreflight) : Type 0 where
    checked_exists : (key : ObjectReference) → is_checked key st.checked ≡ true → Exists key
    cached :
        (v : String) (gv : GroupVersion) (rs : List ApiResource)
        → api.parse_group_version v ≡ ok gv
        → st.resources v ≡ some rs
        → api.discover (discovery_path api gv) ≡ ok rs

  -- A check leaves sound caches, and passes only what holds.
  abbrev Sound : Type 0 → Checked → Type 0
  Sound P r = IsSound r.0 × (r.1 ≡ none → P)

  judge-Sound :
      (key : ObjectReference) (c : Controller) (st : DrainPreflight)
      → IsSound st
      → (c.uid ≡ key.uid → key.uid ≢ "" → c.deleting ≡ false → Exists key)
      → Sound (Exists key) (judge key c st)
  unfolding judge is_checked
  judge-Sound key c st s conclude =
      if-case (Sound (Exists key)) (is_empty_text key.uid || not (str_eq c.uid key.uid))
        (λ _. (s, λ h. cc))
        (λ owned.
          if-case (Sound (Exists key)) c.deleting (λ _. (s, λ h. cc))
            (λ live.
              let e =
                conclude (ground (arith, eq_iff c.uid key.uid)) (ground (arith, eq_iff key.uid ""))
                  live in
              (with_key e, λ _. e)))
    where
      with_key : Exists key → IsSound (record st { checked = key ∷ st.checked })
      with_key e = record {
        checked_exists = λ k h. elim (Bool-cases (same_reference key k)) [
          | inl m ↦ subst Exists (same_reference-eq key k m) e
          | inr m ↦ s.checked_exists k (ground (arith, h))
        ];
        cached = s.cached;
      }

  verify-Sound :
      (key : ObjectReference) (gv : GroupVersion) (rs : List ApiResource) (st : DrainPreflight)
      → api.parse_group_version key.api_version ≡ ok gv
      → api.discover (discovery_path api gv) ≡ ok rs
      → IsSound st
      → Sound (Exists key) (verify api key gv rs st)
  unfolding verify
  verify-Sound key gv rs st parsed discovered s = go (find_resource key.kind rs) refl
    where
      controller :
          (r : ApiResource) (a : Answer Controller)
          → find_resource key.kind rs ≡ some r
          → api.get_controller gv r.name (scope_of api r key) key.name ≡ a
          → Sound (Exists key) (verify api key gv rs st)
      controller r (failed m) e f = rw (e, f, verify) (s, λ h. cc)
      controller r (ok c) e f =
          rw (e, f, verify)
            (judge-Sound key c st s (λ same uid live. record {
              gv = gv;
              resources = rs;
              resource = r;
              controller = c;
              parsed = parsed;
              discovered = discovered;
              found = e;
              got = f;
              same_uid = same;
              has_uid = uid;
              live = live;
            }))

      go :
          (o : Option ApiResource)
          → find_resource key.kind rs ≡ o
          → Sound (Exists key) (verify api key gv rs st)
      go none e = rw (e, verify) (s, λ h. cc)
      go (some r) e =
          controller r (api.get_controller gv r.name (scope_of api r key) key.name) e refl

  update-IsSound :
      (v : String) (gv : GroupVersion) (rs : List ApiResource) (st : DrainPreflight)
      → api.parse_group_version v ≡ ok gv
      → api.discover (discovery_path api gv) ≡ ok rs
      → IsSound st
      → IsSound (record st { resources = update v (some rs) st.resources })
  update-IsSound v gv rs st parsed discovered s = record {
    checked_exists = s.checked_exists;
    cached = λ v' gv' rs' p c. elim (Bool-cases (str_eq v v')) [
      | inl same ↦
          let same_gv : gv ≡ gv' =
            ok-injective (sym parsed ∙ ap api.parse_group_version ((eq_iff v v').0 same) ∙ p) in
          let same_rs : rs ≡ rs' = ground (arith, c) in
          subst (λ g. api.discover (discovery_path api g) ≡ ok rs') same_gv
            (discovered ∙ ap ok same_rs)
      | inr differ ↦ s.cached v' gv' rs' p (ground (arith, c))
    ];
  }

  with_listing-Sound :
      (key : ObjectReference) (gv : GroupVersion) (st : DrainPreflight)
      (o : Option (List ApiResource)) (a : Answer (List ApiResource))
      → api.parse_group_version key.api_version ≡ ok gv
      → st.resources key.api_version ≡ o
      → api.discover (discovery_path api gv) ≡ a
      → IsSound st
      → Sound (Exists key) (with_listing api key gv st o a)
  unfolding with_listing
  with_listing-Sound key gv st (some rs) a p e f s =
      verify-Sound key gv rs st p (s.cached _ gv rs p e) s
  with_listing-Sound key gv st none (failed m) p e f s = (s, λ h. cc)
  with_listing-Sound key gv st none (ok rs) p e f s =
      verify-Sound key gv rs _ p f (update-IsSound _ gv rs st p f s)

  with_version-Sound :
      (key : ObjectReference) (st : DrainPreflight) (a : Answer GroupVersion)
      → api.parse_group_version key.api_version ≡ a
      → IsSound st
      → Sound (Exists key) (with_version api key st a)
  unfolding with_version
  with_version-Sound key st (failed m) e s = (s, λ h. cc)
  with_version-Sound key st (ok gv) e s = with_listing-Sound key gv st _ _ e refl refl s

  check_owner-Sound :
      (key : ObjectReference) (st : DrainPreflight)
      → IsSound st
      → Sound (Exists key) (check_owner api key st)
  unfolding check_owner
  check_owner-Sound key st s =
      if-case (Sound (Exists key)) (is_checked key st.checked)
        (λ hit. (s, λ _. s.checked_exists key hit)) (λ _. with_version-Sound key st _ refl s)

  check-Sound :
      (pod : Pod) (st : DrainPreflight) → IsSound st → Sound (Verified pod) (check api pod st)
  unfolding check
  check-Sound pod st s = elim (Option-cases (first_empty_dir pod.volumes)) [
    | inr (v, e) ↦ rw (e, check) (s, λ h. cc)
    | inl e ↦ elim (Option-cases (api.get_controller_of pod)) [
      | inl f ↦ rw (e, f, check) (s, λ h. cc)
      | inr (owner, f) ↦
          let (s', passes) = check_owner-Sound (reference_of pod owner) st s in
          rw (e, f, check)
            (
              s',
              λ h. record {
                no_local_data = first_empty_dir-NoLocalData pod.volumes e;
                owner = owner;
                owned = f;
                exists = passes h;
              },
            )
    ]
  ]

  abbrev Lists : List Pod → Listing → Type 0
  Lists items (listed ps) = (ps ≡ drainable items) × All Verified ps
  Lists items (refuses p e) = Unit

  with_pod-Lists :
      (p : Pod) (items : List Pod) (l : Listing)
      → is_left_alone p ≡ false
      → Verified p
      → Lists items l
      → Lists (p ∷ items) (with_pod p l)
  with_pod-Lists p items (listed ps) e v (same, all) = (rw e (ap (◌∷◌ p) same), (v, all))
  with_pod-Lists p items (refuses q m) e v l = tt

  after_check-Lists :
      (p : Pod) (items : List Pod) (r : Checked) (rest : DrainPreflight → Listing)
      → is_left_alone p ≡ false
      → Sound (Verified p) r
      → ((st : DrainPreflight) → IsSound st → Lists items (rest st))
      → Lists (p ∷ items) (after_check p r rest)
  after_check-Lists p items (st, none) rest e (s, passes) next =
      with_pod-Lists p items (rest st) e (passes refl) (next st s)
  after_check-Lists p items (st, some m) rest e s next = tt

  skip-Lists :
      (p : Pod) (items : List Pod) (l : Listing)
      → is_left_alone p ≡ true
      → Lists items l
      → Lists (p ∷ items) l
  skip-Lists p items (listed ps) e l = rw e l
  skip-Lists p items (refuses q m) e l = tt

  list_from-Lists :
      (items : List Pod) (st : DrainPreflight) → IsSound st → Lists items (list_from api items st)
  unfolding list_from
  list_from-Lists [] st s = (refl, tt)
  list_from-Lists (p ∷ ps) st s =
      if-case (Lists (p ∷ ps)) (is_skipped p)
        (λ e.
          skip-Lists p ps (list_from api ps st) (sym (is_skipped-is_left_alone p) ∙ e)
            (list_from-Lists ps st s))
        (λ e.
          after_check-Lists p ps (check api p st) _ (sym (is_skipped-is_left_alone p) ∙ e)
            (check-Sound p st s) (λ st' s'. list_from-Lists ps st' s'))

  -- If the preflight does not refuse, it gives exactly the pods that are neither mirrors, nor owned
  -- by a DaemonSet, nor completed, in their order, and each is verified: no volume with local data,
  -- and a controller that exists under the UID in the pod's owner reference and is not being deleted.
  pub list_drainable-Verified :
      (items ps : List Pod)
      → list_drainable_pods api items ≡ listed ps
      → (ps ≡ drainable items) × All Verified ps
  unfolding list_drainable_pods
  list_drainable-Verified items ps h =
      subst (Lists items) h (list_from-Lists items new_preflight fresh)
    where
      fresh : IsSound new_preflight
      fresh = record { checked_exists = λ key e. cc; cached = λ v gv rs p e. cc }

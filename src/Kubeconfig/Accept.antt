-- ===== src/Kubeconfig/Accept.antt =====
-- cmd/kubetin/trust.go: a "yes" on a disk that does not change lets every candidate file in.
use kubetin.Common.{
  ◌≡◌, refl, sym, ap, ◌∙◌, inl, inr, String, true, false, ◌||◌, ◌&&◌, Option, none, some, List, [],
  ◌∷◌, str_eq, All, arith, eq_iff, Bool-cases, if-case,
}
use kubetin.Kubeconfig.Trust.{
  TrustList, ok, Disk, has_hash, put, knows, put_found, is_trusted, add, add_all, trusted_files,
  untrusted_files, partition_files, Start, load_trusted, discover_trusted, Session, is_failure,
  second_discovery, bless, on_answer, ask, first_discovery, load_trusted_discovery,
}
use kubetin.Kubeconfig.Start.{AllTrusted}

has_hash-put :
    (x h path : String) (m : List (String × String))
    → has_hash x (put h path m) ≡ (str_eq h x || has_hash x m)
unfolding has_hash put
has_hash-put x h path [] = refl
has_hash-put x h path ((k, p) ∷ m) =
    ground (arith, has_hash-put x h path m, eq_iff k h, eq_iff k x, eq_iff h x)

knows-put_found :
    (f : String) (t : TrustList) (o p : Option String)
    → knows t p ≡ true
    → knows (put_found f o t) p ≡ true
unfolding has_hash put
knows-put_found f t none p h = h
knows-put_found f t (some k) none h = h
knows-put_found f t (some k) (some x) h = ground (arith, has_hash-put x k f t.hashes)

knows-put_found_self :
    (f : String) (t : TrustList) (h : String) → knows (put_found f (some h) t) (some h) ≡ true
unfolding has_hash put
knows-put_found_self f t h = ground (arith, has_hash-put h h f t.hashes, eq_iff h h)

module _ (disk : Disk) where
  add_all-keeps :
      (f : String) (fs : List String) (t : TrustList)
      → is_trusted disk t f ≡ true
      → is_trusted disk (add_all disk fs t) f ≡ true
  unfolding is_trusted add add_all
  add_all-keeps f [] t h = h
  add_all-keeps f (g ∷ fs) t h =
      add_all-keeps f fs (add disk g t)
        (knows-put_found g t (disk.hash_file g) (disk.hash_file f) h)

  abbrev pub Readable : String → Type 0
  Readable f = (h : String) × (disk.hash_file f ≡ some h)

  add_self : (f : String) (t : TrustList) → Readable f → is_trusted disk (add disk f t) f ≡ true
  unfolding is_trusted add
  add_self f t (h, e) = rw (e) (knows-put_found_self f t h)

  -- A file that was trusted, or that was added, is trusted.
  add_untrusted :
      (t t' : TrustList) (fs : List String)
      → All Readable fs
      → ((f : String) → is_trusted disk t f ≡ true → is_trusted disk t' f ≡ true)
      → AllTrusted disk (add_all disk (untrusted_files disk t fs) t') fs
  unfolding untrusted_files add_all
  add_untrusted t t' [] r up = tt
  add_untrusted t t' (f ∷ fs) (r, rs) up =
      let us = untrusted_files disk t fs in
      if-case (λ gs. AllTrusted disk (add_all disk gs t') (f ∷ fs)) (is_trusted disk t f)
        (λ h. (add_all-keeps f us t' (up f h), add_untrusted t t' fs rs up))
        (λ _. (
          add_all-keeps f us (add disk f t') (add_self f t' r),
          add_untrusted t (add disk f t') fs rs (λ g e. add_all-keeps g (f ∷ []) t' (up g e)),
        ))

  trusted_files-all :
      (t : TrustList) (fs : List String) → AllTrusted disk t fs → trusted_files disk t fs ≡ fs
  unfolding trusted_files
  trusted_files-all t [] h = refl
  trusted_files-all t (f ∷ fs) (h, hs) = rw (h) (ap (λ gs. f ∷ gs) (trusted_files-all t fs hs))

  none_untrusted :
      (t : TrustList) (fs : List String) → untrusted_files disk t fs ≡ [] → AllTrusted disk t fs
  unfolding untrusted_files
  none_untrusted t [] h = tt
  none_untrusted t (f ∷ fs) h = elim (Bool-cases (is_trusted disk t f)) [
    | inl e ↦ (e, none_untrusted t fs (grind arith))
    | inr e ↦ absurd (grind arith)
  ]

-- The start loads exactly these files.
abbrev pub Accepts : List String → Start → Type 0
Accepts fs r = r.outcome ≡ inl (record { files = fs; loaded = fs })

module _ (s : Session) (f : String) (fs : List String) (files : s.before.files ≡ ok (f ∷ fs))
    (readable : All (Readable s.before) (f ∷ fs)) (adds_same : s.adding ≡ s.before)
    (after_same : s.after ≡ s.before) (saves : (t : TrustList) → s.save_error t ≡ none)
    (consents : (gs : List String) → ask s gs ≡ ok true) where
  discovers_all :
      (t : TrustList)
      → AllTrusted s.before t (f ∷ fs)
      → Accepts (f ∷ fs) (second_discovery t (discover_trusted s.after t))
  unfolding discover_trusted partition_files
  discovers_all t h = rw (after_same, files, trusted_files-all s.before t (f ∷ fs) h) refl

  bless-Accepts : Accepts (f ∷ fs) (bless s (untrusted_files s.before s.list (f ∷ fs)))
  unfolding bless
  bless-Accepts =
      rw
        (
          saves (add_all s.adding (untrusted_files s.before s.list (f ∷ fs)) s.list),
          adds_same,
          bless,
        )
        (discovers_all _ (add_untrusted s.before s.list s.list (f ∷ fs) readable (λ g e. e)))

  first_discovery-Accepts :
      (ts us : List String)
      → us ≡ untrusted_files s.before s.list (f ∷ fs)
      → ts ≡ trusted_files s.before s.list (f ∷ fs)
      → Accepts (f ∷ fs) (first_discovery s (load_trusted (f ∷ fs) (ts, us)))
  unfolding first_discovery on_answer
  first_discovery-Accepts ts [] u t =
      let e =
        t
        ∙ trusted_files-all s.before s.list (f ∷ fs)
            (none_untrusted s.before s.list (f ∷ fs) (sym u)) in
      rw (e) refl
  first_discovery-Accepts [] (g ∷ gs) u t = rw (consents (g ∷ gs), u) bless-Accepts
  first_discovery-Accepts (x ∷ xs) (g ∷ gs) u t = rw (consents (g ∷ gs), u) bless-Accepts

  -- Let the disk hold readable candidate files and not change during the start, let the list be saved
  -- without an error, and let the user answer every prompt with yes. Unless the list exists and cannot
  -- be read, the start then loads every candidate file, whichever of them were on the list before.
  pub load_trusted_discovery-Accepts :
      (is_failure s.load_error && s.list.existed) ≡ false
      → Accepts (f ∷ fs) (load_trusted_discovery s)
  unfolding load_trusted_discovery discover_trusted partition_files
  load_trusted_discovery-Accepts h = rw (h, files) (first_discovery-Accepts _ _ refl refl)

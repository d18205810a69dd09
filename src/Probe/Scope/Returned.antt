-- ===== src/Probe/Scope/Returned.antt =====
-- internal/cluster/probe.go, `ResolveScope`: which scopes callers get.
use kubetin.Common.{
  ℕ, ◌≡◌, refl, sym, ap, subst, ◌∙◌, ◌⊎◌, inl, inr, String, Option, none, some, List, [], ◌∷◌,
  write, ◌==◌, if-case,
}
use kubetin.Probe.Scope.{
  ListAnswer, allowed, denied, unclear, resolve_scope_now, CallPhase, absent, looking, asking,
  storing, deleting, closing, closed, looked, note_answer, ScopeCall, Caller, entering, missed,
  waiting, returned, Scopes, new_scopes, look_up, join, wake_caller, work, Event, looks, joins,
  wakes, leaves, works, act, resolve_step, resolve_run,
}
use kubetin.Probe.Scope.Flight.{is_asking, IsSingleIn, resolve_step-IsSingle}
use kubetin.Probe.Scope.Sticky.{none-some, new_scopes-IsSingle}

-- The context's own namespace, or the scope that is decided.
abbrev pub IsScope : String → Option String → String → Type 0
IsScope hint cached v = (v ≡ hint) ⊎ (cached ≡ some v)

-- What a call holds behind its answer; what it holds before the store is definitive.
abbrev HoldsScope : String → Option String → CallPhase → String → Type 0
HoldsScope hint cached deleting v = IsScope hint cached v
HoldsScope hint cached closing v = IsScope hint cached v
HoldsScope hint cached closed v = IsScope hint cached v
HoldsScope hint cached _ v = Unit

abbrev GotScope : String → Option String → Caller → Type 0
GotScope hint cached (returned v) = IsScope hint cached v
GotScope hint cached _ = Unit

pub record IsHonest (hint : String) (cached : Option String) (calls : ℕ → ScopeCall)
    (callers : ℕ → Caller) : Type 0 where
  pub held : (c : ℕ) → HoldsScope hint cached (calls c).phase (calls c).ns
  pub got : (i : ℕ) → GotScope hint cached (callers i)

abbrev pub IsHonestIn : String → Scopes → Type 0
IsHonestIn hint s = IsHonest hint s.cached s.calls s.callers

-- A function that is written at one place.
write-All :
    {A : Type 0} (P : A → Type 0) (k : ℕ) (x : A) (f : ℕ → A)
    → P x
    → ((j : ℕ) → P (f j))
    → (j : ℕ) → P (write k x f j)
write-All P k x f p q j = if-case P (k == j) {x = x} {y = f j} (λ _. p) (λ _. q j)

module _ (hint : String) (s : Scopes) (ok : IsHonestIn hint s) where
  calls_written :
      (c : ℕ) (x : ScopeCall)
      → HoldsScope hint s.cached x.phase x.ns
      → IsHonest hint s.cached (write c x s.calls) s.callers
  calls_written c x h = record {
    held =
        write-All (λ (y : ScopeCall). HoldsScope hint s.cached y.phase y.ns) c x s.calls h ok.held;
    got = ok.got;
  }

  callers_written :
      (i : ℕ) (p : Caller)
      → GotScope hint s.cached p
      → IsHonest hint s.cached s.calls (write i p s.callers)
  callers_written i p h = record {
    held = ok.held;
    got = write-All (GotScope hint s.cached) i p s.callers h ok.got;
  }

  looked-IsHonest :
      (c : ℕ) (v : String) (o : Option String) → s.cached ≡ o → IsHonestIn hint (looked c v o s)
  looked-IsHonest c v none e = calls_written c (record { ns = v; phase = asking }) tt
  looked-IsHonest c v (some w) e = calls_written c (record { ns = w; phase = deleting }) (inr e)

  answer-IsHonest :
      (c : ℕ) (a : ListAnswer) → IsHonestIn hint (note_answer c (resolve_scope_now hint a) s)
  unfolding resolve_scope_now
  answer-IsHonest c allowed = calls_written c (record { ns = ""; phase = storing }) tt
  answer-IsHonest c denied = calls_written c (record { ns = hint; phase = storing }) tt
  answer-IsHonest c unclear = calls_written c (record { ns = hint; phase = deleting }) (inl refl)

  look_up-IsHonest : (i : ℕ) (o : Option String) → s.cached ≡ o → IsHonestIn hint (look_up i o s)
  unfolding look_up
  look_up-IsHonest i none e = callers_written i missed tt
  look_up-IsHonest i (some v) e = callers_written i (returned v) (inr e)

  join-IsHonest : (i : ℕ) (o : Option ℕ) → IsHonestIn hint (join i o s)
  unfolding join
  join-IsHonest i (some c) = callers_written i (waiting c) tt
  join-IsHonest i none = record {
    held = (calls_written s.next (record { ns = ""; phase = looking }) tt).held;
    got = (callers_written i (waiting s.next) tt).got;
  }

  wake-IsHonest :
      (i : ℕ) (v : String) (p : CallPhase)
      → HoldsScope hint s.cached p v
      → IsHonestIn hint (wake_caller i v p s)
  unfolding wake_caller
  wake-IsHonest i v closed h = callers_written i (returned v) h
  wake-IsHonest i v _ h = ok

  act-IsHonest : (e : Event) (i : ℕ) (p : Caller) → IsHonestIn hint (act hint e i p s)
  unfolding act
  act-IsHonest (looks j) i entering = look_up-IsHonest i s.cached refl
  act-IsHonest (joins j) i missed = join-IsHonest i s.current
  act-IsHonest (wakes j) i (waiting d) =
      wake-IsHonest i (s.calls d).ns (s.calls d).phase (ok.held d)
  act-IsHonest (leaves j) i missed = callers_written i (returned hint) (inl refl)
  act-IsHonest (leaves j) i (waiting d) = callers_written i (returned hint) (inl refl)
  act-IsHonest _ i _ = ok

  -- Before the decision every scope that is out is the hint.
  first-IsScope :
      (v w : String) → s.cached ≡ none → IsScope hint s.cached w → IsScope hint (some v) w
  first-IsScope v w e (inl h) = inl h
  first-IsScope v w e (inr h) = absurd (none-some w (sym e ∙ h))

  first-HoldsScope :
      (v : String)
      → s.cached ≡ none
      → (p : CallPhase) (w : String) → HoldsScope hint s.cached p w
      → HoldsScope hint (some v) p w
  first-HoldsScope v e deleting w h = first-IsScope v w e h
  first-HoldsScope v e closing w h = first-IsScope v w e h
  first-HoldsScope v e closed w h = first-IsScope v w e h
  first-HoldsScope v e _ w h = tt

  first-GotScope :
      (v : String)
      → s.cached ≡ none
      → (p : Caller) → GotScope hint s.cached p
      → GotScope hint (some v) p
  first-GotScope v e (returned w) h = first-IsScope v w e h
  first-GotScope v e _ h = tt

  held_at :
      (c : ℕ) (p : CallPhase) → (s.calls c).phase ≡ p → HoldsScope hint s.cached p (s.calls c).ns
  held_at c p e = subst (λ (q : CallPhase). HoldsScope hint s.cached q (s.calls c).ns) e (ok.held c)

  work-IsHonest :
      (c : ℕ) (a : ListAnswer) (p : CallPhase)
      → IsSingleIn s
      → (s.calls c).phase ≡ p
      → IsHonestIn hint (work hint c a (s.calls c).ns p s)
  unfolding work
  work-IsHonest c a absent inv e = ok
  work-IsHonest c a looking inv e = looked-IsHonest c (s.calls c).ns s.cached refl
  work-IsHonest c a asking inv e = answer-IsHonest c a
  work-IsHonest c a storing inv e =
      let open_yet : s.cached ≡ none = inv.undecided c (ap is_asking e) in
      let v = (s.calls c).ns in
      record {
        held =
            write-All (λ (y : ScopeCall). HoldsScope hint (some v) y.phase y.ns) c
              (record { ns = v; phase = deleting }) s.calls (inr refl)
              (λ d. first-HoldsScope v open_yet (s.calls d).phase (s.calls d).ns (ok.held d));
        got = λ i. first-GotScope v open_yet (s.callers i) (ok.got i);
      }
  work-IsHonest c a deleting inv e =
      calls_written c (record { ns = (s.calls c).ns; phase = closing }) (held_at c deleting e)
  work-IsHonest c a closing inv e =
      calls_written c (record { ns = (s.calls c).ns; phase = closed }) (held_at c closing e)
  work-IsHonest c a closed inv e = ok

  resolve_step-IsHonest : (e : Event) → IsSingleIn s → IsHonestIn hint (resolve_step hint e s)
  unfolding resolve_step
  resolve_step-IsHonest (works c a) inv = work-IsHonest c a (s.calls c).phase inv refl
  resolve_step-IsHonest (looks i) inv = act-IsHonest (looks i) i (s.callers i)
  resolve_step-IsHonest (joins i) inv = act-IsHonest (joins i) i (s.callers i)
  resolve_step-IsHonest (wakes i) inv = act-IsHonest (wakes i) i (s.callers i)
  resolve_step-IsHonest (leaves i) inv = act-IsHonest (leaves i) i (s.callers i)

run_from-IsHonest :
    (hint : String) (es : List Event) (s : Scopes)
    → IsHonestIn hint s
    → IsSingleIn s
    → IsHonestIn hint (resolve_run hint es s)
unfolding resolve_step
run_from-IsHonest hint [] s ok inv = ok
run_from-IsHonest hint (e ∷ es) s ok inv =
    run_from-IsHonest hint es (resolve_step hint e s) (resolve_step-IsHonest hint s ok e inv)
      (resolve_step-IsSingle hint e s inv)

decided_same : (c : Option String) (v w : String) → c ≡ some v → c ≡ some w → v ≡ w
decided_same c v w a b = cc

agree :
    (hint v w : String) (c : Option String)
    → IsScope hint c v
    → IsScope hint c w
    → (v ≡ hint) ⊎ (w ≡ hint) ⊎ (v ≡ w)
agree hint v w c (inl h) q = inl h
agree hint v w c (inr g) (inl h) = inr (inl h)
agree hint v w c (inr g) (inr h) = inr (inr (decided_same c v w g h))

-- Whatever steps came before, a caller that is back has the context's own namespace or the scope that
-- is decided, so two callers whose scopes are not that namespace have the same one.
pub resolve_run_agrees :
    (hint : String) (es : List Event) (i j : ℕ) (v w : String)
    → (resolve_run hint es new_scopes).callers i ≡ returned v
    → (resolve_run hint es new_scopes).callers j ≡ returned w
    → IsScope hint (resolve_run hint es new_scopes).cached v
      × IsScope hint (resolve_run hint es new_scopes).cached w
      × ((v ≡ hint) ⊎ (w ≡ hint) ⊎ (v ≡ w))
resolve_run_agrees hint es i j v w a b =
    let start : IsHonestIn hint new_scopes = record { held = λ c. tt; got = λ i. tt } in
    let ok : IsHonestIn hint (resolve_run hint es new_scopes) =
      run_from-IsHonest hint es new_scopes start new_scopes-IsSingle in
    let p : IsScope hint (resolve_run hint es new_scopes).cached v =
      subst (GotScope hint (resolve_run hint es new_scopes).cached) a (ok.got i) in
    let q : IsScope hint (resolve_run hint es new_scopes).cached w =
      subst (GotScope hint (resolve_run hint es new_scopes).cached) b (ok.got j) in
    (p, q, agree hint v w (resolve_run hint es new_scopes).cached p q)

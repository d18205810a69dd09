-- ===== src/Probe/Scope/Flight.antt =====
-- internal/cluster/probe.go, `ResolveScope`: one request at a time, and one decision.
use kubetin.Common.{
  ℕ, ◌≡◌, refl, sym, ap, subst, ◌∙◌, inl, inr, String, Bool, true, false, Option, none, some, write,
  ◌==◌, if◌then◌else◌, arith, Bool-cases, ==_iff,
}
use kubetin.Probe.Scope.{
  ListAnswer, resolve_scope_now, CallPhase, absent, looking, asking, storing, deleting, closing,
  closed, looked, ScopeCall, Caller, entering, missed, waiting, Scopes, look_up, join, wake_caller,
  work, Event, looks, joins, wakes, leaves, works, act, resolve_step,
}

-- The goroutine of the call has not deleted it yet.
abbrev pub is_live : CallPhase → Bool
is_live absent = false
is_live closing = false
is_live closed = false
is_live _ = true

-- The goroutine of the call has a request, or an answer to store.
abbrev pub is_asking : CallPhase → Bool
is_asking asking = true
is_asking storing = true
is_asking _ = false

-- A call that is not deleted is the one in the map; and while one asks, there is no decision.
pub record IsSingle (cached : Option String) (current : Option ℕ) (calls : ℕ → ScopeCall)
    : Type 0 where
  pub only : (c : ℕ) → is_live (calls c).phase ≡ true → current ≡ some c
  pub undecided : (c : ℕ) → is_asking (calls c).phase ≡ true → cached ≡ none

abbrev pub IsSingleIn : Scopes → Type 0
IsSingleIn s = IsSingle s.cached s.current s.calls

asking_live : (p : CallPhase) → is_asking p ≡ true → is_live p ≡ true
asking_live absent h = h
asking_live looking h = refl
asking_live asking h = h
asking_live storing h = h
asking_live deleting h = refl
asking_live closing h = h
asking_live closed h = h

some_inj : (c d : ℕ) → some c ≡ some d → c ≡ d
some_inj c d h = cc

-- To look at the written call and at the others apart.
write-phase :
    (P : CallPhase → Type 0) (Q : Type 0) (c d : ℕ) (x : ScopeCall) (calls : ℕ → ScopeCall)
    → (c ≡ d → P x.phase → Q)
    → ((c == d) ≡ false → P (calls d).phase → Q)
    → P (write c x calls d).phase
    → Q
write-phase P Q c d x calls own other h = elim (Bool-cases (c == d)) [
  | inl e ↦ own ((==_iff c d).0 e) (subst (λ (b : Bool). P (if b then x else calls d).phase) e h)
  | inr e ↦ other e (subst (λ (b : Bool). P (if b then x else calls d).phase) e h)
]

-- A call is written, and perhaps the decision and the map with it.
write-IsSingle :
    (cached : Option String) (current : Option ℕ) (calls : ℕ → ScopeCall) (c : ℕ) (x : ScopeCall)
    → (is_live x.phase ≡ true → current ≡ some c)
    → (is_asking x.phase ≡ true → cached ≡ none)
    → ((d : ℕ) → (c == d) ≡ false → is_live (calls d).phase ≡ true → current ≡ some d)
    → ((d : ℕ) → (c == d) ≡ false → is_asking (calls d).phase ≡ true → cached ≡ none)
    → IsSingle cached current (write c x calls)
write-IsSingle cached current calls c x live ask others others' = record {
  only = λ d.
      write-phase (λ p. is_live p ≡ true) (current ≡ some d) c d x calls (λ e h. live h ∙ ap some e)
        (others d);
  undecided = λ d.
      write-phase (λ p. is_asking p ≡ true) (cached ≡ none) c d x calls (λ e h. ask h) (others' d);
}

none-some : (d : ℕ) → none ≡ some d → ⊥
none-some d h = cc

never : false ≡ true → ⊥
never h = cc

module _ (s : Scopes) (inv : IsSingleIn s) (c : ℕ) where
  -- The call in the map moves on.
  moves :
      (x : ScopeCall)
      → s.current ≡ some c
      → (is_asking x.phase ≡ true → s.cached ≡ none)
      → IsSingle s.cached s.current (write c x s.calls)
  moves x cur ask =
      write-IsSingle s.cached s.current s.calls c x (λ h. cur) ask (λ d e. inv.only d)
        (λ d e. inv.undecided d)

  -- Of a live call there is no other.
  alone : (d : ℕ) → s.current ≡ some c → (c == d) ≡ false → is_live (s.calls d).phase ≡ true → ⊥
  alone d cur e h =
      let same : c ≡ d = some_inj c d (sym cur ∙ inv.only d h) in absurd (ground arith)

  looked-IsSingle :
      (v : String) (o : Option String)
      → s.cached ≡ o
      → s.current ≡ some c
      → IsSingleIn (looked c v o s)
  looked-IsSingle v none e cur = moves (record { ns = v; phase = asking }) cur (λ h. e)
  looked-IsSingle v (some w) e cur =
      moves (record { ns = w; phase = deleting }) cur (λ h. absurd (never h))

  work-IsSingle :
      (hint v : String) (a : ListAnswer) (p : CallPhase)
      → (s.calls c).phase ≡ p
      → IsSingleIn (work hint c a v p s)
  unfolding work resolve_scope_now
  work-IsSingle hint v a absent h = inv
  work-IsSingle hint v a looking h = looked-IsSingle v s.cached refl (inv.only c (ap is_live h))
  work-IsSingle hint v a asking h =
      moves _ (inv.only c (ap is_live h)) (λ k. inv.undecided c (ap is_asking h))
  work-IsSingle hint v a storing h =
      let cur : s.current ≡ some c = inv.only c (ap is_live h) in
      write-IsSingle (some v) s.current s.calls c (record { ns = v; phase = deleting }) (λ k. cur)
        (λ k. absurd (never k)) (λ d e. inv.only d)
        (λ d e k. absurd (alone d cur e (asking_live (s.calls d).phase k)))
  work-IsSingle hint v a deleting h =
      let cur : s.current ≡ some c = inv.only c (ap is_live h) in
      write-IsSingle s.cached none s.calls c (record { ns = v; phase = closing })
        (λ k. absurd (never k)) (λ k. absurd (never k)) (λ d e k. absurd (alone d cur e k))
        (λ d e. inv.undecided d)
  work-IsSingle hint v a closing h =
      write-IsSingle s.cached s.current s.calls c (record { ns = v; phase = closed })
        (λ k. absurd (never k)) (λ k. absurd (never k)) (λ d e. inv.only d) (λ d e. inv.undecided d)
  work-IsSingle hint v a closed h = inv

  join-IsSingle : (i : ℕ) (o : Option ℕ) → s.current ≡ o → IsSingleIn (join i o s)
  unfolding join
  join-IsSingle i (some d) e = inv
  join-IsSingle i none e =
      write-IsSingle s.cached (some s.next) s.calls s.next (record { ns = ""; phase = looking })
        (λ k. refl) (λ k. absurd (never k)) (λ d f k. absurd (none-some d (sym e ∙ inv.only d k)))
        (λ d f. inv.undecided d)

  look_up-IsSingle : (i : ℕ) (o : Option String) → IsSingleIn (look_up i o s)
  unfolding look_up
  look_up-IsSingle i none = inv
  look_up-IsSingle i (some v) = inv

  wake_caller-IsSingle : (i : ℕ) (v : String) (p : CallPhase) → IsSingleIn (wake_caller i v p s)
  unfolding wake_caller
  wake_caller-IsSingle i v closed = inv
  wake_caller-IsSingle i v _ = inv

  act-IsSingle : (hint : String) (e : Event) (i : ℕ) (p : Caller) → IsSingleIn (act hint e i p s)
  unfolding act
  act-IsSingle hint (looks j) i entering = look_up-IsSingle i s.cached
  act-IsSingle hint (joins j) i missed = join-IsSingle i s.current refl
  act-IsSingle hint (wakes j) i (waiting d) =
      wake_caller-IsSingle i (s.calls d).ns (s.calls d).phase
  act-IsSingle hint (leaves j) i missed = inv
  act-IsSingle hint (leaves j) i (waiting d) = inv
  act-IsSingle hint _ i _ = inv

-- Whatever step comes next, at most one call is live, and none asks once there is a decision.
pub resolve_step-IsSingle :
    (hint : String) (e : Event) (s : Scopes) → IsSingleIn s → IsSingleIn (resolve_step hint e s)
unfolding resolve_step
resolve_step-IsSingle hint (works c a) s inv =
    work-IsSingle s inv c hint (s.calls c).ns a (s.calls c).phase refl
resolve_step-IsSingle hint (looks i) s inv = act-IsSingle s inv 0 hint (looks i) i (s.callers i)
resolve_step-IsSingle hint (joins i) s inv = act-IsSingle s inv 0 hint (joins i) i (s.callers i)
resolve_step-IsSingle hint (wakes i) s inv = act-IsSingle s inv 0 hint (wakes i) i (s.callers i)
resolve_step-IsSingle hint (leaves i) s inv = act-IsSingle s inv 0 hint (leaves i) i (s.callers i)

-- ===== src/Probe/Scope.antt =====
-- internal/cluster/probe.go, `ResolveScope`: one check of the access to pods for many callers.
--
-- The state of one context. An operation of a sync.Map is one step, and any steps of callers and of the
-- goroutines of calls may follow each other. A call is an address, next the first one that is free.
use kubetin.Common.{
  ℕ, ◌+◌, String, Bool, true, false, Option, none, some, List, [], ◌∷◌, write, if◌then◌else◌,
}
pub mod Flight
pub mod Sticky
pub mod Returned
mod Examples

-- What the list of one pod gives; a refusal is Forbidden or Unauthorized.
pub data ListAnswer : Type 0 where
  allowed denied unclear : ListAnswer

unfoldable pub resolve_scope_now : String → ListAnswer → String × Bool
resolve_scope_now hint allowed = ("", true)
resolve_scope_now hint denied = (hint, true)
resolve_scope_now hint unclear = (hint, false)

-- Where the goroutine of a call is: before its own look into the cache, before the answer, before
-- `scopes.Store`, before `scopeCalls.Delete`, before `close`, and at its end.
pub data CallPhase : Type 0 where
  absent looking asking storing deleting closing closed : CallPhase

-- `scopeCall`
pub record ScopeCall : Type 0 where
  pub ns : String
  pub phase : CallPhase

-- Where a caller is: before the first look, behind it, waiting for a call, or back with a scope.
pub data Caller : Type 0 where
  entering : Caller
  missed : Caller
  waiting : ℕ → Caller
  returned : String → Caller

pub record Scopes : Type 0 where
  pub cached : Option String
  pub current : Option ℕ
  pub calls : ℕ → ScopeCall
  pub next : ℕ
  pub callers : ℕ → Caller

abbrev pub new_scopes : Scopes
new_scopes = record {
  cached = none;
  current = none;
  calls = λ c. record { ns = ""; phase = absent };
  next = 0;
  callers = λ i. entering;
}

abbrev set_caller : ℕ → Caller → Scopes → Scopes
set_caller i p s = record s { callers = write i p s.callers }

abbrev set_call : ℕ → ScopeCall → Scopes → Scopes
set_call c x s = record s { calls = write c x s.calls }

unfoldable pub look_up : ℕ → Option String → Scopes → Scopes
look_up i none s = set_caller i missed s
look_up i (some v) s = set_caller i (returned v) s

-- `LoadOrStore`, and the `go` behind it.
unfoldable pub join : ℕ → Option ℕ → Scopes → Scopes
join i (some c) s = set_caller i (waiting c) s
join i none s =
    set_caller i (waiting s.next)
      (record (set_call s.next (record { ns = ""; phase = looking }) s) {
        current = some s.next;
        next = s.next + 1;
      })

unfoldable pub wake_caller : ℕ → String → CallPhase → Scopes → Scopes
wake_caller i v closed s = set_caller i (returned v) s
wake_caller i v _ s = s

abbrev note_answer : ℕ → String × Bool → Scopes → Scopes
note_answer c (v, definitive) s =
    set_call c (record { ns = v; phase = if definitive then storing else deleting }) s

abbrev looked : ℕ → String → Option String → Scopes → Scopes
looked c v none s = set_call c (record { ns = v; phase = asking }) s
looked c v (some w) s = set_call c (record { ns = w; phase = deleting }) s

-- One step of the goroutine of the call c; the answer counts where it asks.
unfoldable pub work : String → ℕ → ListAnswer → String → CallPhase → Scopes → Scopes
unfolding resolve_scope_now
work hint c a v absent s = s
work hint c a v looking s = looked c v s.cached s
work hint c a v asking s = note_answer c (resolve_scope_now hint a) s
work hint c a v storing s = record (set_call c (record { ns = v; phase = deleting }) s) {
  cached = some v;
}
work hint c a v deleting s = record (set_call c (record { ns = v; phase = closing }) s) {
  current = none;
}
work hint c a v closing s = set_call c (record { ns = v; phase = closed }) s
work hint c a v closed s = s

pub data Event : Type 0 where
  looks joins wakes leaves : ℕ → Event
  works : ℕ → ListAnswer → Event

-- What a caller does; a step that is not its next one changes nothing. `leaves` is the end of its context.
unfoldable pub act : String → Event → ℕ → Caller → Scopes → Scopes
unfolding look_up join wake_caller
act hint (looks j) i entering s = look_up i s.cached s
act hint (joins j) i missed s = join i s.current s
act hint (leaves j) i missed s = set_caller i (returned hint) s
act hint (leaves j) i (waiting c) s = set_caller i (returned hint) s
act hint (wakes j) i (waiting c) s = wake_caller i (s.calls c).ns (s.calls c).phase s
act hint _ i _ s = s

unfoldable pub resolve_step : String → Event → Scopes → Scopes
unfolding act work
resolve_step hint (works c a) s = work hint c a (s.calls c).ns (s.calls c).phase s
resolve_step hint (looks i) s = act hint (looks i) i (s.callers i) s
resolve_step hint (joins i) s = act hint (joins i) i (s.callers i) s
resolve_step hint (wakes i) s = act hint (wakes i) i (s.callers i) s
resolve_step hint (leaves i) s = act hint (leaves i) i (s.callers i) s

abbrev pub resolve_run : String → List Event → Scopes → Scopes
unfolding resolve_step
resolve_run hint [] s = s
resolve_run hint (e ∷ es) s = resolve_run hint es (resolve_step hint e s)

-- ===== src/Probe/Errors.antt =====
-- internal/cluster/probe.go: `classify`, `isNetworkError`, `isTimeout`, `trimError`.
--
-- An error is what these functions ask of it. Its text is a text of one-byte characters.
use Prim.Native.Char.{code}
use Prim.Native.String.{count, ◌++◌ as join}
use text.Mathlib.TextLemmas.{length-append, length-cons}
use kubetin.Common.{
  ℕ, zero, suc, ◌≤◌, String, Bool, true, false, ◌||◌, Option, none, some, ltb, ◌==◌, if◌then◌else◌,
  arith, if-case,
}
use kubetin.State.Defs.{Reach, degraded, unreachable, auth_failed}

-- `net_timeout` is the answer of `Timeout()` if the error is a `net.Error`; `says` tells whether the
-- text in lower case holds a text.
pub record ApiError : Type 0 where
  pub is_forbidden : Bool
  pub is_unauthorized : Bool
  pub is_deadline : Bool
  pub net_timeout : Option Bool
  pub is_url_error : Bool
  pub text : String
  pub says : String → Bool

abbrev pub is_denied : ApiError → Bool
is_denied e = e.is_forbidden || e.is_unauthorized

abbrev is_some : Option Bool → Bool
is_some none = false
is_some (some b) = true

abbrev or_false : Option Bool → Bool
or_false none = false
or_false (some b) = b

unfoldable pub is_network_error : ApiError → Bool
is_network_error e =
    is_some e.net_timeout
    || e.is_url_error
    || e.says "no such host"
    || e.says "i/o timeout"
    || e.says "connection refused"
    || e.says "network is unreachable"
    || e.says "tls:"
    || e.says "x509:"
    || e.says "eof"

unfoldable pub classify : ApiError → Reach
unfolding is_network_error
classify e =
    if is_denied e
    then auth_failed
    else if is_network_error e
    then unreachable
    else if e.is_deadline
    then unreachable
    else if e.says "unauthorized" || e.says "forbidden"
    then auth_failed
    else degraded

-- Of an error that is there; `nil` is no timeout.
unfoldable pub is_timeout : ApiError → Bool
is_timeout e = e.is_deadline || or_false e.net_timeout

abbrev pub first_line : String → String
first_line String.[] = ""
first_line (String.◌∷◌ c s) =
    let rest = first_line s in if code c == 10 then "" else String.◌∷◌ c rest

abbrev pub take_text : ℕ → String → String
take_text zero s = ""
take_text (suc n) String.[] = ""
take_text (suc n) (String.◌∷◌ c s) = String.◌∷◌ c (take_text n s)

-- `trimError` of an error with this text.
unfoldable pub trim_error : String → String
trim_error text =
    let s = first_line text in if ltb 120 (count s) then join (take_text 117 s) "..." else s

count-take_text : (n : ℕ) (s : String) → count (take_text n s) ≤ n
count-take_text zero s = omega arith
count-take_text (suc n) String.[] = omega arith
count-take_text (suc n) (String.◌∷◌ c s) =
    omega (arith, length-cons c (take_text n s), count-take_text n s)

-- A trimmed error has at most 120 characters.
pub count-trim_error : (text : String) → count (trim_error text) ≤ 120
unfolding trim_error
count-trim_error text =
    if-case (λ s. count s ≤ 120) (ltb 120 (count (first_line text)))
      (λ _. omega (
        arith,
        length-append (take_text 117 (first_line text)) "...",
        count-take_text 117 (first_line text),
      ))
      (λ h. ground arith)

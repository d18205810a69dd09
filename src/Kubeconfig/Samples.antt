-- ===== src/Kubeconfig/Samples.antt =====
-- internal/kubeconfig/discover.go: three contexts, two of one name, in two files.
use Prim.Native.String.{◌++◌ as join, count}
use text.Mathlib.TextLemmas.{append_cancel_left, length-append}
use kubetin.Common.{
  ℕ, zero, suc, ◌≡◌, refl, ap, String, List, [], ◌∷◌, str_eq, if◌then◌else◌, arith,
}
use kubetin.Kubeconfig.Names.{ContextRef, Texts}

unfoldable pub ticks : ℕ → String
ticks zero = ""
ticks (suc n) = join "'" (ticks n)

ticks_injective : (m n : ℕ) → ticks m ≡ ticks n → m ≡ n
unfolding ticks
ticks_injective zero zero h = refl
ticks_injective zero (suc n) h = absurd (ground (arith, length-append "'" (ticks n), ap count h))
ticks_injective (suc m) zero h = absurd (ground (arith, length-append "'" (ticks m), ap count h))
ticks_injective (suc m) (suc n) h =
    ap suc (ticks_injective m n (append_cancel_left "'" (ticks m) (ticks n) h))

abbrev pub base_of : String → String
base_of p =
    if str_eq p "/a/config"
    then "config"
    else (if str_eq p "/b/config"
        then "config"
        else (if str_eq p "/a" then "a" else (if str_eq p "/b" then "b" else p)))

abbrev pub dir_of : String → String
dir_of p = if str_eq p "/a/config" then "/a" else (if str_eq p "/b/config" then "/b" else "/")

abbrev pub texts : Texts
texts = record {
  base = base_of;
  dir = dir_of;
  join_path = λ a b. join a (join "/" b);
  numbered = λ base n. join base (ticks n);
}

abbrev pub context : String → String → ContextRef
context raw file = record { name = ""; raw_name = raw; file = file; namespace = "" }

abbrev pub contexts : List ContextRef
contexts = context "dev" "/a/config" ∷ context "dev" "/b/config" ∷ context "prod" "/b/config" ∷ []

pub texts_injective :
    (base : String) (m n : ℕ) → texts.numbered base m ≡ texts.numbered base n → m ≡ n
texts_injective base m n h = ticks_injective m n (append_cancel_left base (ticks m) (ticks n) h)

-- ===== src/Common/Maps.antt =====
-- Go maps as functions: a missing key reads as the value that the function gives there.
use Prim.Native.Nat.{ℕ}
use Prim.Native.String.{String}
use kubetin.Common.Tests.{◌==◌, str_eq, if◌then◌else◌}

module _ {ℓ} {V : Type ℓ} where
  abbrev pub update : String → V → (String → V) → String → V
  update k v m j = if str_eq k j then v else m j

  abbrev pub write : ℕ → V → (ℕ → V) → ℕ → V
  write k v m j = if k == j then v else m j

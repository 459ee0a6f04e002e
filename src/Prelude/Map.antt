-- ===== src/Prelude/Map.antt =====
-- std::map with strings as keys: what it finds, and its size.
use Prim.Native.Nat.{ℕ, suc, ◌-◌}
use mathlib.Core.Path.{◌≡◌}
use mathlib.Core.Logic.{◌≢◌}
use mathlib.Core.Bool.{Bool, true, false}
use mathlib.Core.Option.{Option, none, some}
use native.Mathlib.Omega.{arith}
use s3fuse.Prelude.Tests.{if◌then◌else◌}
use s3fuse.Prelude.Text.{Text, same, same_iff}

pub record Map {ℓ} (V : Type ℓ) : Type ℓ where
  pub find : Text → Option V
  pub size : ℕ

abbrev pub is_some {ℓ} : {A : Type ℓ} → Option A → Bool
is_some none = false
is_some (some a) = true

module _ {ℓ} {V : Type ℓ} where
  abbrev pub empty : Map V
  empty = record { find = λ k. none; size = 0 }

  -- `m[k] = v`
  abbrev pub insert : Text → V → Map V → Map V
  insert k v m = record {
    find = λ j. if same k j then some v else m.find j;
    size = if is_some (m.find k) then m.size else suc m.size;
  }

  abbrev pub erase : Text → Map V → Map V
  erase k m = record {
    find = λ j. if same k j then none else m.find j;
    size = if is_some (m.find k) then m.size - 1 else m.size;
  }

  abbrev pub map_some : (V → V) → Option V → Option V
  map_some f none = none
  map_some f (some v) = some (f v)

  -- A change of the value of a key, if it is there.
  abbrev pub modify : Text → (V → V) → Map V → Map V
  modify k f m = record m { find = λ j. if same k j then map_some f (m.find j) else m.find j }

pub same_ne : (s t : Text) → s ≢ t → same s t ≡ false
same_ne s t h = ground (arith, same_iff s t)

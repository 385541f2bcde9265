-- ===== src/Base/Arrays.antt =====
-- C arrays as lists with native indices, under the library's names.
use Prim.Native.Nat.{ℕ, zero, suc}
use mathlib.Core.List.{List, [], ◌∷◌}
use mathlib.Core.Option.{Option, none, some}
use mathlib.Core.Path.{◌≡◌}
use mathlib.Core.Logic.{◌≢◌, ◌⊎◌}
use native.Mathlib.Omega.{arith}
use cpu_ia32_cpp.Base.Tests.{◌==◌, if◌then◌else◌}

module _ {ℓ} {A : Type ℓ} where
  abbrev pub length : List A → ℕ
  length [] = 0
  length (_ ∷ xs) = suc (length xs)

  abbrev pub get_elem? : List A → ℕ → Option A
  get_elem? [] _ = none
  get_elem? (x ∷ _) zero = some x
  get_elem? (_ ∷ xs) (suc i) = get_elem? xs i

-- A C array as a function of the index, after a store.
abbrev pub update : (ℕ → ℕ) → ℕ → ℕ → ℕ → ℕ
update f i v j = if i == j then v else f j

pub update-same : (f : ℕ → ℕ) (i v : ℕ) → update f i v i ≡ v
update-same f i v = ground arith

pub update-other : (f : ℕ → ℕ) (i v j : ℕ) → i ≢ j → update f i v j ≡ f j
update-other f i v j ne = ground arith

pub update-cases :
    (f : ℕ → ℕ) (i v j : ℕ) → ((i ≡ j) × (update f i v j ≡ v)) ⊎ ((i ≢ j) × (update f i v j ≡ f j))
update-cases f i v j = ground arith

pub update-at : (f : ℕ → ℕ) (i v j : ℕ) → i ≡ j → update f i v j ≡ v
update-at f i v j same = ground arith

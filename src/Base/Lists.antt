-- ===== src/Base/Lists.antt =====
-- Lengths, finite sums over an index range, and updates of a family.
use Prim.Native.Nat.{ℕ, zero, suc, ◌+◌, ◌<◌}
use mathlib.Core.Path.{◌≡◌, refl}
use mathlib.Core.Bool.{Bool, true, false}
use mathlib.Core.Option.{Option, none, some}
use mathlib.Core.List.{List, [], ◌∷◌}
use native.Mathlib.Omega.{arith}
use kernel_wasm.Base.Tests.{◌==◌, if◌then◌else◌}

abbrev pub length {ℓ} : {A : Type ℓ} → List A → ℕ
length [] = 0
length (x ∷ xs) = suc (length xs)

abbrev pub is_some {ℓ} : {A : Type ℓ} → Option A → Bool
is_some none = false
is_some (some _) = true

-- A C array written at one index.
abbrev pub update {ℓ} : {A : Type ℓ} → (ℕ → A) → ℕ → A → ℕ → A
update f i a j = if j == i then a else f j

-- `f 0 + … + f (n - 1)`.
unfoldable pub total : ℕ → (ℕ → ℕ) → ℕ
total zero f = 0
total (suc n) f = total n f + f n

pub total-congr : (n : ℕ) (f g : ℕ → ℕ) → ((i : ℕ) → i < n → f i ≡ g i) → total n f ≡ total n g
unfolding total
total-congr zero f g h = refl
total-congr (suc n) f g h =
    omega (arith, total-congr n f g (λ i lt. h i (omega arith)), h n (omega arith))

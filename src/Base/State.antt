-- ===== src/Base/State.antt =====
-- Stateful code: a function of the state to a result and the new state.
use kernel_wasm.Base.Tests.{if◌then◌else◌}
use mathlib.Core.Bool.{Bool}

module _ {S : Type 0} where
  abbrev pub pure : {A : Type 0} → A → S → A × S
  pure a s = (a, s)

  abbrev pub and_then : {A B : Type 0} → A × S → (A → S → B × S) → B × S
  and_then (a, s) k = k a s

  infixl 5 ◌>>=◌ ◌>>◌
  abbrev pub ◌>>=◌ : {A B : Type 0} → (S → A × S) → (A → S → B × S) → S → B × S
  m >>= k = λ s. and_then (m s) k

  abbrev pub ◌>>◌ : {A B : Type 0} → (S → A × S) → (S → B × S) → S → B × S
  m >> n = m >>= λ _. n

  abbrev pub modify : (S → S) → S → Unit {0} × S
  modify f s = (tt, f s)

  abbrev pub when : Bool → (S → Unit {0} × S) → S → Unit {0} × S
  when test m = if test then m else pure tt

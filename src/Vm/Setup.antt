-- ===== src/Vm/Setup.antt =====
-- vm.c: how the body of `init_execution_engine` runs: on the engine, the world and its local
-- variable, up to the first `goto fail`.
use kernel_wasm.Base.{ℕ, Bool, true, false, Option, none, some, if◌then◌else◌, neg}
use kernel_wasm.Kernel.{Kernel, World, Kind, call_alloc, call_from_user}
use kernel_wasm.Vm.Engine.{Engine}

pub record Setup : Type 0 where
  pub ee : Engine
  pub world : World
  pub pages_allocated_without_mapping : Bool

-- `stop err` is the jump to `fail` with that `err`.
pub data Flow (A : Type 0) : Type 0 where
  go : A → Flow A
  stop : (err : ℕ) → Flow A

abbrev pub Act : Type 0 → Type 0
Act A = Setup → Flow A × Setup

-- A part of the body with no value of its own.
abbrev pub Stage : Type 0
Stage = Act (Unit {0})

module _ {A : Type 0} where
  abbrev pub pure : A → Act A
  pure a s = (go a, s)

  abbrev pub and_then : {B : Type 0} → Flow A × Setup → (A → Act B) → Flow B × Setup
  and_then (go a, s) k = k a s
  and_then (stop err, s) k = (stop err, s)

  infixl 5 ◌>>=◌ ◌>>◌
  abbrev pub ◌>>=◌ : {B : Type 0} → Act A → (A → Act B) → Act B
  m >>= k = λ s. and_then (m s) k

  abbrev pub ◌>>◌ : {B : Type 0} → Act A → Act B → Act B
  m >> n = m >>= λ _. n

-- `if(test) { err = -errno; goto fail; }`.
abbrev pub fail_if : Bool → (errno : ℕ) → Stage
fail_if true errno s = (stop (neg errno), s)
fail_if false errno s = (go tt, s)

-- The end of a loop, with the errno of the round that jumped to `fail`, if one did.
abbrev pub finish : Option ℕ → Stage
finish none s = (go tt, s)
finish (some errno) s = (stop (neg errno), s)

-- The body of an `if` without `else`.
abbrev pub only_if : Bool → Stage → Stage
only_if test m = if test then m else pure tt

abbrev pub get : Act Setup
get s = (go s, s)

abbrev pub set : (Engine → Engine) → Stage
set f s = (go tt, record s { ee = f s.ee })

abbrev pub on_world : {A : Type 0} → (World → A × World) → Act A
on_world f s = let r = f s.world in (go r.0, record s { world = r.1 })

module _ (os : Kernel) where
  abbrev pub allocate : Kind → (size : ℕ) → Act ℕ
  allocate kind size = on_world (call_alloc os kind size)

  abbrev pub copy : (dst src len : ℕ) → Act ℕ
  copy dst src len = on_world (call_from_user os dst src len)

-- ===== src/Kapi/Ladder.antt =====
-- The ladders of `strcmp` in the two `do_resolve` of wasi/ext.c and networking/ext.c, rung by rung.
use Prim.Native.String.{String}
use text.Mathlib.Text.{◌==◌ as str_eq}
use kernel_wasm.Base.{ℕ, ◌≡◌, Bool, true, false, some, arith, if◌then◌else◌}
use kernel_wasm.Kapi.Info.{ImportInfo, Resolve, resolved, refused, on_name}

module _ {F : Type 0} (arity : F → ℕ) where
  -- What a ladder resolves has the parameter count that `arity` gives.
  pub record IsSound (r : Resolve F) : Type 0 where
    pub counted :
        (out : ImportInfo F) (fn : F)
        → (r out).0 ≡ 0
        → (r out).1.fn ≡ some fn
        → (r out).1.param_count ≡ arity fn

  rung_counted :
      (test : Bool) {fn : F} {n : ℕ} {rest : Resolve F}
      → n ≡ arity fn
      → IsSound rest
      → (out : ImportInfo F) (fn' : F) → ((if test then resolved fn n else rest) out).0 ≡ 0
      → ((if test then resolved fn n else rest) out).1.fn ≡ some fn'
      → ((if test then resolved fn n else rest) out).1.param_count ≡ arity fn'
  rung_counted true e sound out fn' h k = cc
  rung_counted false e sound out fn' h k = sound.counted out fn' h k

  pub rung :
      (name text : String) (fn : F) (n : ℕ) (rest : Resolve F)
      → n ≡ arity fn
      → IsSound rest
      → IsSound (on_name name text (resolved fn n) rest)
  unfolding on_name
  rung name text fn n rest e sound = record { counted = rung_counted (str_eq name text) e sound }

  pub bottom : IsSound refused
  bottom = record { counted = λ out fn h k. absurd (omega arith) }

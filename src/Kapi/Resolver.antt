-- ===== src/Kapi/Resolver.antt =====
-- kapi.c: the resolver instances of one execution engine, `struct module_resolver`.
pub mod First
use Prim.Native.String.{String}
use kernel_wasm.Base.{ℕ, zero, suc, Bool, Option, none, some, ◌==◌, if◌then◌else◌}
use kernel_wasm.Kernel.{World, Event, emit, heap}
use kernel_wasm.Kapi.Info.{ImportInfo, Resolve}

-- `struct import_resolver_instance`: `none` stands for a NULL callback. Functions are addresses.
pub record Instance : Type 0 where
  pub resolve : Option (String → Resolve ℕ)
  pub release : Bool
  pub private_data : ℕ

-- `struct module_resolver`: the address of the array, what it holds, and `resolver_count`.
pub record ModuleResolver : Type 0 where
  pub resolvers : ℕ
  pub instances : ℕ → Instance
  pub resolver_count : ℕ

-- An instance after `memset(…, 0, …)`.
abbrev pub blank : Instance
blank = record { resolve = none; release = Bool.false; private_data = 0 }

module _ (r : ModuleResolver) where
  -- The loop of `release_module_resolver`.
  unfoldable pub release_loop : (left i : ℕ) → World → World
  release_loop zero i w = w
  release_loop (suc left) i w =
      let inst = r.instances i in
      release_loop left (suc i)
        (if inst.release then emit (Event.released inst.private_data) w else w)

  -- `release_module_resolver`.
  unfoldable pub release_module_resolver : World → World
  unfolding release_loop
  release_module_resolver w = emit (Event.free heap r.resolvers) (release_loop r.resolver_count 0 w)

  -- The loop of `module_resolver_resolve_import`; `info` is the local variable, which a resolver
  -- that fails may have written.
  unfoldable pub resolve_loop : String → (param_count left i : ℕ) → ImportInfo ℕ → Option ℕ
  resolve_loop name param_count zero i info = none
  resolve_loop name param_count (suc left) i info = elim ((r.instances i).resolve) [
    | none ↦ resolve_loop name param_count left (suc i) info
    | some resolve ↦
        let answer = resolve name info in
        let rest = resolve_loop name param_count left (suc i) answer.1 in
        if answer.0 == 0
        then (if answer.1.param_count == param_count then answer.1.fn else none)
        else rest
  ]

  -- `module_resolver_resolve_import`: `none` for NULL.
  unfoldable pub resolve_import : String → (param_count : ℕ) → ImportInfo ℕ → Option ℕ
  unfolding resolve_loop
  resolve_import name param_count info = resolve_loop name param_count r.resolver_count 0 info

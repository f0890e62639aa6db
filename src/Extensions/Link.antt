-- ===== src/Extensions/Link.antt =====
-- What an import is linked to when the extensions are the registered resolvers.
use Prim.Native.String.{String}
use kernel_wasm.Base.{
  ℕ, zero, suc, ◌<◌, ◌≡◌, refl, sym, ap, ◌∙◌, ◌⊎◌, ◌↔◌, inl, inr, true, none, some, List, [], ◌∷◌,
  arith, length, is_some, Option-cases,
}
use kernel_wasm.Extensions.{callback, get_instance, tmp}
use kernel_wasm.Kapi.Info.{ImportInfo, Resolve}
use kernel_wasm.Kapi.Registry.{Entry, Registry, get_module_resolver}
use kernel_wasm.Kapi.Registry.Counted.{instance_at, made, get_module_resolver_fills}
use kernel_wasm.Kapi.Resolver.{Instance, resolve_import}
use kernel_wasm.Kapi.Resolver.First.{Answers, resolve_import-First}
use kernel_wasm.Kernel.{Kernel, World}
use kernel_wasm.Net.Host as NetHost
use kernel_wasm.Net.Table as NetTable
use kernel_wasm.Net.Table.Arity.{net_resolve-param_count}
use kernel_wasm.Vm.Context.{Vmctx}
use kernel_wasm.Wasi.Host as WasiHost
use kernel_wasm.Wasi.Table as WasiTable
use kernel_wasm.Wasi.Table.Arity.{wasi_resolve-param_count}

-- The callback answers only with the address of a function that `do_resolve` gives for the name, and
-- with its count.
callback-answer :
    {F : Type 0} (addr : F → ℕ) (do_resolve : String → Resolve F) (name : String)
    (info out : ImportInfo ℕ) (f : ℕ)
    → callback addr do_resolve name info ≡ (0, out)
    → out.fn ≡ some f
    → (fn : F) × (f ≡ addr fn)
      × ((do_resolve name (record { fn = none; param_count = 0 })).0 ≡ 0)
      × ((do_resolve name (record { fn = none; param_count = 0 })).1.fn ≡ some fn)
      × (out.param_count ≡ (do_resolve name (record { fn = none; param_count = 0 })).1.param_count)
unfolding callback
callback-answer addr do_resolve name info out f h e =
    let r = do_resolve name (record { fn = none; param_count = 0 }) in
    elim (Option-cases r.1.fn) [
      | inl nothing ↦ absurd (ground arith)
      | inr (fn, known) ↦ (fn, ground arith, ground arith, known, ground arith)
    ]

-- The callback of an instance is the one that was called.
called :
    (inst : Instance) {known resolve : String → Resolve ℕ} {name : String} {info out : ImportInfo ℕ}
    → inst.resolve ≡ some known
    → inst.resolve ≡ some resolve
    → resolve name info ≡ (0, out)
    → known name info ≡ (0, out)
called inst {known = known} {name = name} {info = info} e e' answers =
    ap (λ o. elim o as (λ _. ℕ × ImportInfo ℕ) [ none ↦ known name info | some r ↦ r name info ])
      (sym e ∙ e')
    ∙ answers

module _ (wasi : WasiTable.HostFn → ℕ) (net : NetTable.HostFn → ℕ) where
  -- The address is that of a host function which takes just `n` arguments after the context.
  abbrev pub Takes : (f n : ℕ) → Type 0
  Takes f n =
      ((fn : WasiTable.HostFn) × (f ≡ wasi fn)
        × ((os : WasiHost.Files) (ctx : Vmctx) (args : List ℕ)
            → (is_some (WasiTable.enter os ctx fn args) ≡ true) ↔ (length args ≡ n)))
      ⊎ ((fn : NetTable.HostFn) × (f ≡ net fn)
          × ((os : NetHost.Kernel) (ctx : Vmctx) (args : List ℕ)
              → (is_some (NetTable.enter os ctx fn args) ≡ true) ↔ (length args ≡ n)))

  -- Every entry was registered by one of the two extensions.
  abbrev pub AreExtensions : List Entry → Type 0
  AreExtensions [] = Unit {0}
  AreExtensions (e ∷ entries) =
      ((e.inner ≡ tmp wasi WasiTable.do_resolve) ⊎ (e.inner ≡ tmp net NetTable.do_resolve))
      × AreExtensions entries

  wasi-Takes :
      (name : String) (info out : ImportInfo ℕ) (f : ℕ)
      → callback wasi WasiTable.do_resolve name info ≡ (0, out)
      → out.fn ≡ some f
      → Takes f out.param_count
  wasi-Takes name info out f h e =
      let (fn, at, ok, known, count) =
        callback-answer wasi WasiTable.do_resolve name info out f h e in
      inl (
        fn,
        at,
        λ os ctx args. rw count (
            wasi_resolve-param_count os ctx name (record { fn = none; param_count = 0 }) fn args ok
              known),
      )

  net-Takes :
      (name : String) (info out : ImportInfo ℕ) (f : ℕ)
      → callback net NetTable.do_resolve name info ≡ (0, out)
      → out.fn ≡ some f
      → Takes f out.param_count
  net-Takes name info out f h e =
      let (fn, at, ok, known, count) =
        callback-answer net NetTable.do_resolve name info out f h e in
      inr (
        fn,
        at,
        λ os ctx args. rw count (
            net_resolve-param_count os ctx name (record { fn = none; param_count = 0 }) fn args ok
              known),
      )

  instance_at-extension :
      (w : World) (entries : List Entry) (j : ℕ)
      → AreExtensions entries
      → j < length entries
      → ((instance_at w entries j).resolve ≡ some (callback wasi WasiTable.do_resolve))
        ⊎ ((instance_at w entries j).resolve ≡ some (callback net NetTable.do_resolve))
  unfolding get_instance
  instance_at-extension w [] j all lt = absurd (omega arith)
  instance_at-extension w (e ∷ entries) zero (inl is_wasi, all) lt = inl (rw is_wasi refl)
  instance_at-extension w (e ∷ entries) zero (inr is_net, all) lt = inr (rw is_net refl)
  instance_at-extension w (e ∷ entries) (suc j) all lt =
      instance_at-extension w entries j all.1 (omega arith)

  answer-Takes :
      (inst : Instance) (name : String) (out : ImportInfo ℕ) (f : ℕ)
      → (inst.resolve ≡ some (callback wasi WasiTable.do_resolve))
        ⊎ (inst.resolve ≡ some (callback net NetTable.do_resolve))
      → Answers inst name out
      → out.fn ≡ some f
      → Takes f out.param_count
  answer-Takes inst name out f (inl is_wasi) (resolve, info, e, answers) known =
      wasi-Takes name info out f (called inst is_wasi e answers) known
  answer-Takes inst name out f (inr is_net) (resolve, info, e, answers) known =
      net-Takes name info out f (called inst is_net e answers) known

-- When every registered resolver is that of wasi/ext.c or of networking/ext.c, whose functions stand at
-- the addresses given, and the instances of an engine were made from the registry, an import that is
-- resolved for `n` parameters is the address of a host function that takes just `n` arguments after the
-- context.
pub resolve_import-Takes :
    (wasi : WasiTable.HostFn → ℕ) (net : NetTable.HostFn → ℕ) (os : Kernel) (g : Registry)
    (w : World) (name : String) (n : ℕ) (info : ImportInfo ℕ) (f : ℕ)
    → AreExtensions wasi net g.resolvers
    → g.resolver_count ≡ length g.resolvers
    → (get_module_resolver os g w).0.0 ≡ 0
    → resolve_import (get_module_resolver os g w).0.1 name n info ≡ some f
    → Takes wasi net f n
resolve_import-Takes wasi net os g w name n info f all counted ok found =
    let r = (get_module_resolver os g w).0.1 in
    let (j, out, le, lt, answers, fn, count, before) = resolve_import-First r name n info f found in
    elim (get_module_resolver_fills os g w j counted) [
      | inl (failed, null) ↦ absurd (failed ok)
      | inr (fine, number, inr (past, none_written)) ↦ absurd (omega arith)
      | inr (fine, number, inl (within, made_so)) ↦
          let which = instance_at-extension wasi net (made os g w) g.resolvers j all within in
          let takes =
            answer-Takes wasi net (instance_at (made os g w) g.resolvers j) name out f which
              (rw made_so at answers) fn in
          rw count at takes
    ]

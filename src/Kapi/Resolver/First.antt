-- ===== src/Kapi/Resolver/First.antt =====
-- kapi.c: which resolver decides an import.
use Prim.Native.String.{String}
use kernel_wasm.Base.{
  ℕ, zero, suc, ◌+◌, ◌<◌, ◌≤◌, ◌≡◌, ◌≢◌, ◌⊎◌, inl, inr, none, some, arith, ◌==◌, Bool-cases,
  Option-cases,
}
use kernel_wasm.Kapi.Info.{ImportInfo, Resolve}
use kernel_wasm.Kapi.Resolver.{Instance, ModuleResolver, resolve_loop, resolve_import}

-- The instance answers the name, on some content of the local variable, with this result.
abbrev pub Answers : Instance → String → ImportInfo ℕ → Type 0
Answers inst name out =
    (resolve : String → Resolve ℕ) × (info : ImportInfo ℕ) × (inst.resolve ≡ some resolve)
    × (resolve name info ≡ (0, out))

-- The instance has no `resolve`, or it reports an error.
abbrev pub Passes : Instance → String → Type 0
Passes inst name =
    (inst.resolve ≡ none)
    ⊎ ((resolve : String → Resolve ℕ) × (info : ImportInfo ℕ) × (inst.resolve ≡ some resolve)
        × ((resolve name info).0 ≢ 0))

module _ (r : ModuleResolver) (name : String) (n : ℕ) (f : ℕ) where
  -- The `j`-th instance, from the `i`-th on, is the first to answer, and its function is `f`.
  abbrev pub First : (i left : ℕ) → Type 0
  First i left =
      (j : ℕ) × (out : ImportInfo ℕ) × (i ≤ j)
      × (j < i + left)
      × Answers (r.instances j) name out
      × (out.fn ≡ some f)
      × (out.param_count ≡ n)
      × ((k : ℕ) → i ≤ k → k < j → Passes (r.instances k) name)

  later : (i left : ℕ) → Passes (r.instances i) name → First (suc i) left → First i (suc left)
  later i left passes (j, out, le, lt, answers, fn, count, before) = (
    j,
    out,
    omega arith,
    omega arith,
    answers,
    fn,
    count,
    λ k k_le k_lt. elim (Bool-cases (k == i)) [
      | inl same ↦ (let e : k ≡ i = ground arith in rw e passes)
      | inr other ↦ before k (ground arith) k_lt
    ],
  )

  resolve_loop-First :
      (left i : ℕ) (info : ImportInfo ℕ) → resolve_loop r name n left i info ≡ some f → First i left
  unfolding resolve_loop
  resolve_loop-First zero i info h = absurd (ground arith)
  resolve_loop-First (suc left) i info h = elim (Option-cases ((r.instances i).resolve)) [
    | inl nothing ↦
        later i left (inl nothing)
          (resolve_loop-First left (suc i) info (rw (nothing, resolve_loop) at h))
    | inr (resolve, e) ↦
        (let h₁ = rw (e, resolve_loop) at h in
          elim (Bool-cases ((resolve name info).0 == 0)) [
            | inl ok ↦
                (let h₂ = rw ok at h₁ in
                  let answer = (resolve name info).1 in
                  elim (Bool-cases (answer.param_count == n)) [
                    | inl same ↦ (
                      i,
                      answer,
                      omega arith,
                      omega arith,
                      (resolve, info, e, ground arith),
                      rw same at h₂,
                      ground arith,
                      λ k k_le k_lt. absurd (omega arith),
                    )
                    | inr other ↦ absurd (ground (arith, rw other at h₂))
                  ])
            | inr failed ↦
                later i left (inr (resolve, info, e, ground arith))
                  (resolve_loop-First left (suc i) (resolve name info).1 (rw failed at h₁))
          ])
  ]

-- When `module_resolver_resolve_import` returns a function for a name and a parameter count, one of
-- the instances answered the name with that function and just that count, and each instance before
-- it has no `resolve` or reported an error.
pub resolve_import-First :
    (r : ModuleResolver) (name : String) (n : ℕ) (info : ImportInfo ℕ) (f : ℕ)
    → resolve_import r name n info ≡ some f
    → First r name n f 0 r.resolver_count
unfolding resolve_import
resolve_import-First r name n info f h = resolve_loop-First r name n f r.resolver_count 0 info h

-- ===== src/Vm/Written.antt =====
-- vm.c: which kernel memory `init_execution_engine` writes.
pub mod Stages
pub mod Arrays
pub mod Stored
pub mod Loaded
use kernel_wasm.Base.{
  ℕ, ◌+◌, ◌*◌, ◌≡◌, refl, ◌⊎◌, inl, inr, Bool, true, false, not, ◌&&◌, ◌||◌, ◌==◌, leb, ltb, arith,
}
use kernel_wasm.Kernel.{Kernel}
use kernel_wasm.Vm.Engine.{Engine, LoadCodeRequest}
use kernel_wasm.Vm.Setup.{Setup, Stage, Flow, go, stop, and_then, ◌>>◌}

-- `a` is one of the `n` bytes at `start`, which `p` stands for unless it is NULL.
abbrev pub holds : (p start n a : ℕ) → Bool
holds p start n a = not (p == 0) && (leb start a && ltb a (start + n))

-- The engine's buffers that are filled from the user's: the code, the memory, the globals and the
-- signature indices.
abbrev pub fills : Kernel → LoadCodeRequest → Engine → ℕ → Bool
fills os request ee a =
    holds ee.code ee.code request.code_len a
    || holds ee.static_memory_vm (os.area_addr ee.static_memory_vm) request.memory_len a
    || holds ee.local_global_backing ee.local_global_backing (8 * request.global_count) a
    || holds ee.dynamic_sigindices ee.dynamic_sigindices (4 * request.dynamic_sigindice_count) a

-- What is set stays.
abbrev Stays : ℕ → ℕ → Type 0
Stays p q = (q ≡ p) ⊎ (p ≡ 0)

module _ (os : Kernel) (request : LoadCodeRequest) (a : ℕ) where
  -- From one state to the other a buffer that is set stays, and the byte at `a` changes only if it lies
  -- in one.
  pub record Spares (s t : Setup) : Type 0 where
    pub code : Stays s.ee.code t.ee.code
    pub memory : Stays s.ee.static_memory_vm t.ee.static_memory_vm
    pub globals : Stays s.ee.local_global_backing t.ee.local_global_backing
    pub sigindices : Stays s.ee.dynamic_sigindices t.ee.dynamic_sigindices
    pub ram : (fills os request t.ee a ≡ true) ⊎ (t.world.ram a ≡ s.world.ram a)

  pub Spares-trans : {s t u : Setup} → Spares s t → Spares t u → Spares s u
  Spares-trans k l =
      let kc = k.code in
      let km = k.memory in
      let kg = k.globals in
      let ks = k.sigindices in
      let kr = k.ram in
      let lc = l.code in
      let lm = l.memory in
      let lg = l.globals in
      let ls = l.sigindices in
      let lr = l.ram in
      record {
        code = ground arith;
        memory = ground arith;
        globals = ground arith;
        sigindices = ground arith;
        ram = ground arith;
      }

  -- A stage that spares what is not the engine's, from an engine with `U` to one with `V`.
  pub record SparesIn (U V : Engine → Type 0) (m : Stage) : Type 0 where
    pub spares : (s : Setup) → U s.ee → Spares s (m s).1
    pub unset : (s : Setup) → U s.ee → (m s).0 ≡ go tt → V (m s).1.ee

  then-Spares :
      {V W : Engine → Type 0} {n : Stage} (s : Setup) (r : Flow (Unit {0}) × Setup)
      → SparesIn V W n
      → (r.0 ≡ go tt → V r.1.ee)
      → Spares s r.1
      → Spares s (and_then r (λ _. n)).1
  then-Spares s (go tt', t) k v h = Spares-trans h (k.spares t (v refl))
  then-Spares s (stop err, t) k v h = h

  then_unset :
      {V W : Engine → Type 0} {n : Stage} (r : Flow (Unit {0}) × Setup)
      → SparesIn V W n
      → (r.0 ≡ go tt → V r.1.ee)
      → (and_then r (λ _. n)).0 ≡ go tt
      → W (and_then r (λ _. n)).1.ee
  then_unset (go tt', s) k v e = k.unset s (v refl) e
  then_unset (stop err, s) k v e = absurd (ground arith)

  pub SparesIn-then :
      {U V W : Engine → Type 0} {m n : Stage}
      → SparesIn U V m
      → SparesIn V W n
      → SparesIn U W (m >> n)
  SparesIn-then {m = m} k l = record {
    spares = λ s u. then-Spares s (m s) l (k.unset s u) (k.spares s u);
    unset = λ s u e. then_unset (m s) l (k.unset s u) e;
  }

-- ===== src/Vm/Written/Loaded.antt =====
-- What a load writes, whether it succeeds or not.
use kernel_wasm.Base.{
  ℕ, zero, suc, ◌*◌, ◌≡◌, refl, ◌∙◌, ◌⊎◌, inl, inr, false, ◌==◌, Bool-cases, Bool, arith,
  if◌then◌else◌,
}
use kernel_wasm.Kapi.Info.{ImportInfo}
use kernel_wasm.Kapi.Registry.{Registry, get_module_resolver}
use kernel_wasm.Kapi.Resolver.{ModuleResolver, release_loop, release_module_resolver}
use kernel_wasm.Kernel.{Kernel, IsLawful, World, Event, emit, page_size}
use kernel_wasm.Vm.Engine.{Engine, LoadCodeRequest, zeroed}
use kernel_wasm.Vm.Grow.Frame.{free_pages-ram}
use kernel_wasm.Vm.Init.{init_body}
use kernel_wasm.Vm.Load.{
  free_memory, free_arrays, cleanup, conclude, is_refused, init_execution_engine,
}
use kernel_wasm.Vm.Setup.{Setup, Flow, go, stop}
use kernel_wasm.Vm.Sized.{small_lem}
use kernel_wasm.Vm.Triple.{load_leaves}
use kernel_wasm.Vm.Written.{fills, Spares}
use kernel_wasm.Vm.Written.Arrays.{ArraysFit}
use kernel_wasm.Vm.Written.Stored.{body-Fits}
use kernel_wasm.Vm.Written.Stages.{body-SparesIn}

release_loop-ram :
    (r : ModuleResolver) (left i : ℕ) (w : World) → (release_loop r left i w).ram ≡ w.ram
unfolding release_loop
release_loop-ram r zero i w = refl
release_loop-ram r (suc left) i w =
    let inst = r.instances i in
    let w₁ = if inst.release then emit (Event.released inst.private_data) w else w in
    release_loop-ram r left (suc i) w₁ ∙ ground arith

release_module_resolver-ram :
    (r : ModuleResolver) (w : World) → (release_module_resolver r w).ram ≡ w.ram
unfolding release_module_resolver
release_module_resolver-ram r w = release_loop-ram r r.resolver_count 0 w

module _ (os : Kernel) where
  free_memory-ram :
      (unmapped : Bool) (ee : Engine) (w : World) → (free_memory os unmapped ee w).ram ≡ w.ram
  unfolding free_memory
  free_memory-ram unmapped ee w =
      let base = os.area_addr ee.static_memory_vm in
      let w₁ =
        if unmapped then w else emit (Event.unmap base (ee.memory_page_count * page_size)) w in
      ground (arith, free_pages-ram ee.memory_page_count 0 ee.memory_page w₁)

  free_arrays-ram : (ee : Engine) (w : World) → (free_arrays os ee w).ram ≡ w.ram
  unfolding free_arrays
  free_arrays-ram ee w = ground arith

  cleanup-ram : (unmapped : Bool) (ee : Engine) (w : World) → (cleanup os unmapped ee w).ram ≡ w.ram
  unfolding cleanup
  cleanup-ram unmapped ee w =
      let w₁ = free_memory os unmapped ee w in
      release_module_resolver-ram ee.resolver (free_arrays os ee w₁)
      ∙ free_arrays-ram ee w₁
      ∙ free_memory-ram unmapped ee w

  get_module_resolver-ram : (g : Registry) (w : World) → (get_module_resolver os g w).1.ram ≡ w.ram
  unfolding get_module_resolver
  get_module_resolver-ram g w = ground arith

  conclude-ram : (r : Flow (Unit {0}) × Setup) → (conclude os r).world.ram ≡ r.1.world.ram
  unfolding conclude
  conclude-ram (go t, s) = refl
  conclude-ram (stop err, s) = cleanup-ram s.pages_allocated_without_mapping s.ee s.world

  conclude-ee : (r : Flow (Unit {0}) × Setup) → (conclude os r).ee ≡ r.1.ee
  unfolding conclude
  conclude-ee (go t, s) = refl
  conclude-ee (stop err, s) = refl

-- What the body did to the byte at `a`, where `conclude` leaves it.
concluded :
    (os : Kernel) (request : LoadCodeRequest) (a : ℕ) (s : Setup) (r : Flow (Unit {0}) × Setup)
    → Spares os request a s r.1
    → fills os request (conclude os r).ee a ≡ false
    → (conclude os r).world.ram a ≡ s.world.ram a
concluded os request a s r spares out =
    let kept = spares.ram in
    let still : fills os request r.1.ee a ≡ false = rw (conclude-ee os r) at out in
    rw (conclude-ram os r) (ground arith)

zeroed-ArraysFit :
    (os : Kernel) (request : LoadCodeRequest) (j : ℕ) (r : ModuleResolver)
    → ArraysFit os request j (zeroed r)
zeroed-ArraysFit os request j r = record {
  table = (inl refl, inr refl);
  imports = (inl refl, inr refl);
  pointers = (inl refl, inr refl);
  pages = (inl refl, inr refl);
}

-- The stores to the arrays stay in bounds.
pub load_stores :
    (os : Kernel) (g : Registry) (info : ImportInfo ℕ) (request : LoadCodeRequest) (ee : Engine)
    (w : World) (j : ℕ)
    → ((init_execution_engine os g info request ee w).ee ≡ ee)
      ⊎ ArraysFit os request j (init_execution_engine os g info request ee w).ee
unfolding init_execution_engine
load_stores os g info request ee w j = elim (Bool-cases (is_refused request)) [
  | inl bad ↦ rw bad (inl refl)
  | inr good ↦
      let r = get_module_resolver os g w in
      let start : Setup = record {
        ee = zeroed r.0.1;
        world = r.1;
        pages_allocated_without_mapping = false;
      } in
      let zero_fits = zeroed-ArraysFit os request j r.0.1 in
      rw good (elim (Bool-cases (r.0.0 == 0)) [
        | inr failed ↦ rw failed (inr zero_fits)
        | inl fine ↦ rw fine (
            inr (
              rw (conclude-ee os (init_body os request info start))
                (body-Fits os request info j start (small_lem request good) zero_fits)))
      ])
]

pub init_execution_engine-ArraysFit :
    (os : Kernel) (g : Registry) (info : ImportInfo ℕ) (request : LoadCodeRequest) (ee : Engine)
    (w : World) (j : ℕ)
    → (init_execution_engine os g info request ee w).err ≡ 0
    → ArraysFit os request j (init_execution_engine os g info request ee w).ee
init_execution_engine-ArraysFit os g info request ee w j h =
    (load_leaves os request (ArraysFit os request j) g info ee w
      (λ good. record {
        leaves = λ s e done.
            body-Fits os request info j s (small_lem request good)
              (rw e (zeroed-ArraysFit os request j (get_module_resolver os g w).0.1));
      })
      h).2

-- The bytes that change are those of the buffers that copies from the user fill.
pub load_fills :
    (os : Kernel) (g : Registry) (info : ImportInfo ℕ) (request : LoadCodeRequest) (ee : Engine)
    (w : World) (a : ℕ)
    → IsLawful os
    → fills os request (init_execution_engine os g info request ee w).ee a ≡ false
    → (init_execution_engine os g info request ee w).world.ram a ≡ w.ram a
unfolding init_execution_engine
load_fills os g info request ee w a lawful out = elim (Bool-cases (is_refused request)) [
  | inl bad ↦ rw bad refl
  | inr good ↦
      let r = get_module_resolver os g w in
      let start : Setup = record {
        ee = zeroed r.0.1;
        world = r.1;
        pages_allocated_without_mapping = false;
      } in
      let made = get_module_resolver-ram os g w in
      let out₁ = rw (good, init_execution_engine) at out in
      rw good (elim (Bool-cases (r.0.0 == 0)) [
        | inr failed ↦ rw failed (rw made refl)
        | inl fine ↦ rw fine (
            concluded os request a start (init_body os request info start)
              ((body-SparesIn os lawful request info a).spares start
                (refl, (refl, refl, (refl, refl, (refl, (refl, (refl, refl)))))))
              (rw fine at out₁)
            ∙ rw made refl)
      ])
]

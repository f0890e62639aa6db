-- ===== src/Vm/Ledger/Stages/Memory.antt =====
-- The stage of the linear memory keeps account.
use kernel_wasm.Base.{ℕ, zero, suc, ◌≡◌, refl, ◌≢◌, ◌*◌, ◌/◌, ◌^◌, ◌≤◌, arith, total}
use kernel_wasm.Kernel.{Kernel, Kind, virt, page, area, World, page_size, call_alloc}
use kernel_wasm.Kernel.Ledger.{hit-zero}
use kernel_wasm.Vm.Engine.{LoadCodeRequest, static_memory_size, static_memory_available}
use kernel_wasm.Vm.Ledger.Keeps.{Keeps}
use kernel_wasm.Vm.Ledger.Owned.{Accounts, Unset₂, Unset₃}
use kernel_wasm.Vm.Ledger.Pages.{page_hits, alloc_pages-page, alloc_pages-frees, alloc_pages-other}
use kernel_wasm.Vm.Init.{init_pages, init_mapping, init_memory}
use kernel_wasm.Vm.Setup.{Setup, stop}

module _ (os : Kernel) (request : LoadCodeRequest) (p : ℕ) (used : p ≢ 0) (w : World) where
  page_hits-zero : (n : ℕ) → page_hits p n (λ i. 0) ≡ 0
  unfolding total
  page_hits-zero zero = refl
  page_hits-zero (suc n) = omega (arith, page_hits-zero n, hit-zero p used)

  pages_account :
      (kind : Kind) (s : Setup)
      → s.ee.memory_pages ≢ 0
      → page_hits p s.ee.memory_page_count s.ee.memory_page ≡ 0
      → Accounts kind p w s.world s.ee
      → Accounts kind p w (init_pages os request s).1.world (init_pages os request s).1.ee
  unfolding init_pages total
  pages_account page s array empty h = ground (
    arith,
    alloc_pages-page os p used s.ee.memory_page_count 0 s.ee.memory_page_count s.ee.memory_page
        s.world,
    alloc_pages-frees os page p s.ee.memory_page_count 0 s.ee.memory_page s.world,
  )
  pages_account kind s array empty h = ground (
    arith,
    alloc_pages-other os kind p s.ee.memory_page_count 0 s.ee.memory_page s.world refl,
    alloc_pages-frees os kind p s.ee.memory_page_count 0 s.ee.memory_page s.world,
  )

  mapping_account :
      (kind : Kind) (s : Setup)
      → Accounts kind p w s.world s.ee
      → Accounts kind p w (init_mapping os request s).1.world (init_mapping os request s).1.ee
  unfolding init_mapping
  mapping_account virt s h = ground arith
  mapping_account _ s h = ground arith

  -- The state in which the pages are allocated.
  abbrev prepared : Setup → Setup
  prepared s =
      let (vm, w₁) = call_alloc os area static_memory_size s.world in
      let (array, w₂) = call_alloc os virt (8 * (static_memory_available / page_size)) w₁ in
      record s {
        ee = record s.ee {
          static_memory_vm = vm;
          memory_page_count = request.memory_len / page_size;
          memory_pages = array;
          memory_page = λ i. 0;
        };
        world = w₂;
      }

  memory_account :
      (kind : Kind) (s : Setup)
      → Unset₂ s.ee
      → Accounts kind p w s.world s.ee
      → Accounts kind p w (init_memory os request s).1.world (init_memory os request s).1.ee
  unfolding init_memory
  memory_account virt s u h =
      let s₁ = prepared s in
      ground (
        arith,
        hit-zero p,
        page_hits-zero s₁.ee.memory_page_count,
        pages_account virt s₁,
        mapping_account virt (init_pages os request s₁).1,
      )
  memory_account kind s u h =
      let s₁ = prepared s in
      ground (
        arith,
        hit-zero p,
        page_hits-zero s₁.ee.memory_page_count,
        pages_account kind s₁,
        mapping_account kind (init_pages os request s₁).1,
      )

  pages_unset : (s : Setup) → Unset₃ s.ee → Unset₃ (init_pages os request s).1.ee
  unfolding init_pages
  pages_unset s u = ground arith

  mapping_unset : (s : Setup) → Unset₃ s.ee → Unset₃ (init_mapping os request s).1.ee
  unfolding init_mapping
  mapping_unset s u = ground arith

  memory_unset : (s : Setup) → Unset₂ s.ee → Unset₃ (init_memory os request s).1.ee
  unfolding init_memory
  memory_unset s u =
      let s₁ = prepared s in
      ground (arith, pages_unset s₁, mapping_unset (init_pages os request s₁).1)

  pages_fails : (s : Setup) (err : ℕ) → (init_pages os request s).0 ≡ stop err → 2 ^ 31 ≤ err
  unfolding init_pages
  pages_fails s err e = ground arith

  mapping_fails : (s : Setup) (err : ℕ) → (init_mapping os request s).0 ≡ stop err → 2 ^ 31 ≤ err
  unfolding init_mapping
  mapping_fails s err e = ground arith

  memory_fails : (s : Setup) (err : ℕ) → (init_memory os request s).0 ≡ stop err → 2 ^ 31 ≤ err
  unfolding init_memory
  memory_fails s err e =
      let s₁ = prepared s in
      ground (arith, pages_fails s₁ err, mapping_fails (init_pages os request s₁).1 err)

  pub memory-Keeps : Keeps p w Unset₂ Unset₃ (init_memory os request)
  memory-Keeps = record {
    account = memory_account;
    unset = λ s u e. memory_unset s u;
    fails = memory_fails;
  }

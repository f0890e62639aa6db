-- ===== src/Vm/Ledger/Owned.antt =====
-- The allocations that an engine points to.
use kernel_wasm.Base.{ℕ, ◌+◌, ◌≡◌, ◌==◌, if◌then◌else◌}
use kernel_wasm.Kernel.{Kind, virt, page, area, heap, World}
use kernel_wasm.Kernel.Ledger.{hit, Gained}
use kernel_wasm.Vm.Engine.{Engine}
use kernel_wasm.Vm.Ledger.Pages.{page_hits}

-- How many of the engine's pointers to an allocation of the kind hold the address.
abbrev pub owned : Kind → ℕ → Engine → ℕ
owned virt p ee =
    hit p ee.code
    + hit p ee.memory_pages
    + hit p ee.local_global_ptr_backing
    + hit p ee.local_global_backing
    + hit p ee.imported_funcs
    + hit p ee.dynamic_sigindices
    + hit p ee.table_base
    + hit p ee.stack_backing
owned page p ee =
    if ee.memory_pages == 0 then 0 else page_hits p ee.memory_page_count ee.memory_page
owned area p ee = hit p ee.static_memory_vm
owned heap p ee = hit p ee.resolver.resolvers

-- Since `w`, just what the engine points to was allocated and not freed.
abbrev pub Accounts : Kind → ℕ → World → World → Engine → Type 0
Accounts kind p w w' ee = Gained kind p w w' (owned kind p ee)

-- The pointers that the stages of `init_execution_engine` have not set yet.
abbrev pub Unset₇ : Engine → Type 0
Unset₇ ee = ee.stack_backing ≡ 0

abbrev pub Unset₆ : Engine → Type 0
Unset₆ ee = (ee.table_base ≡ 0) × Unset₇ ee

abbrev pub Unset₅ : Engine → Type 0
Unset₅ ee = (ee.dynamic_sigindices ≡ 0) × Unset₆ ee

abbrev pub Unset₄ : Engine → Type 0
Unset₄ ee = (ee.imported_funcs ≡ 0) × Unset₅ ee

abbrev pub Unset₃ : Engine → Type 0
Unset₃ ee = (ee.local_global_ptr_backing ≡ 0) × (ee.local_global_backing ≡ 0) × Unset₄ ee

abbrev pub Unset₂ : Engine → Type 0
Unset₂ ee = (ee.static_memory_vm ≡ 0) × (ee.memory_pages ≡ 0) × Unset₃ ee

abbrev pub Unset₁ : Engine → Type 0
Unset₁ ee = (ee.code ≡ 0) × Unset₂ ee

-- ===== src/Vm/Engine.antt =====
-- vm.h: the constants, `struct execution_engine` and what it points to. Pointers are addresses, 0 for
-- NULL; the contents of the typed arrays stand beside their addresses.
use kernel_wasm.Base.{ℕ, ◌+◌, ◌-◌, ◌*◌, ◌%◌, Bool, false, Option, none, u64}
use kernel_wasm.Kapi.Resolver.{ModuleResolver}
use kernel_wasm.Vm.Context.{Vmctx}

abbrev pub max_code_size : ℕ
max_code_size = 1048576 * 8

abbrev pub max_memory_size : ℕ
max_memory_size = 1048576 * 16

abbrev pub max_global_count : ℕ
max_global_count = 128

abbrev pub max_import_count : ℕ
max_import_count = 128

abbrev pub max_dynamic_sigindice_count : ℕ
max_dynamic_sigindice_count = 8192

abbrev pub max_table_count : ℕ
max_table_count = 1024

abbrev pub stack_size : ℕ
stack_size = 2 * 1048576

abbrev pub stack_guard_size : ℕ
stack_guard_size = 8192

abbrev pub static_memory_size : ℕ
static_memory_size = 6144 * 1048576

abbrev pub static_memory_available : ℕ
static_memory_available = 1024 * 1048576

-- `round_up_to_page_size`, where `x & ~4095` is `x - x % 4096`.
abbrev pub round_up_to_page_size : ℕ → ℕ
round_up_to_page_size x = let y = u64 (x + 4095) in y - y % 4096

-- `struct anyfunc`; its `ctx` always points to the engine's own.
pub record Anyfunc : Type 0 where
  pub func : ℕ
  pub sig_id : ℕ

-- `struct execution_engine` with its `ctx`, `local_table_backing` and `intrinsics_backing`. An array that
-- it points to is its address, 0 for NULL, and a function from the index to the entry, beside the bytes of
-- kernel memory.
pub record Engine : Type 0 where
  pub ctx : Vmctx
  pub globals : ℕ  -- `ctx.globals`
  pub imported_funcs : ℕ  -- `ctx.imported_funcs`
  pub imported_func : ℕ → Option ℕ  -- the `func` of each imported function
  pub dynamic_sigindices : ℕ  -- `ctx.dynamic_sigindices`
  pub has_tables : Bool  -- `ctx.tables` points to `local_table_ptr_backing`
  pub has_intrinsics : Bool  -- `ctx.intrinsics` points to `intrinsics_backing`
  pub stack_lower_bound : ℕ  -- `ctx.stack_lower_bound`
  pub table_base : ℕ
  pub table : ℕ → Anyfunc
  pub table_count : ℕ
  pub resolver : ModuleResolver
  pub local_global_backing : ℕ
  pub local_global_ptr_backing : ℕ
  pub local_global_ptr : ℕ → ℕ
  pub code : ℕ
  pub code_len : ℕ
  pub stack_begin : ℕ
  pub stack_end : ℕ
  pub stack_backing : ℕ
  pub static_memory_vm : ℕ
  pub memory_pages : ℕ
  pub memory_page : ℕ → ℕ
  pub memory_page_count : ℕ
  pub preempt_in_count : ℕ
  pub preempt_out_count : ℕ

-- The engine after `memset(ee, 0, …)` and `get_module_resolver`.
abbrev pub zeroed : ModuleResolver → Engine
zeroed r = record {
  ctx = record { memory_base = 0; memory_bound = 0 };
  globals = 0;
  imported_funcs = 0;
  imported_func = λ i. none;
  dynamic_sigindices = 0;
  has_tables = false;
  has_intrinsics = false;
  stack_lower_bound = 0;
  table_base = 0;
  table = λ i. record { func = 0; sig_id = 0 };
  table_count = 0;
  resolver = r;
  local_global_backing = 0;
  local_global_ptr_backing = 0;
  local_global_ptr = λ i. 0;
  code = 0;
  code_len = 0;
  stack_begin = 0;
  stack_end = 0;
  stack_backing = 0;
  static_memory_vm = 0;
  memory_pages = 0;
  memory_page = λ i. 0;
  memory_page_count = 0;
  preempt_in_count = 0;
  preempt_out_count = 0;
}

-- `struct load_code_request`; each pointer is a user address, 0 for NULL.
pub record LoadCodeRequest : Type 0 where
  pub code : ℕ
  pub code_len : ℕ
  pub memory : ℕ
  pub memory_len : ℕ
  pub memory_max : ℕ
  pub table : ℕ
  pub table_count : ℕ
  pub globals : ℕ
  pub global_count : ℕ
  pub imported_funcs : ℕ
  pub imported_func_count : ℕ
  pub dynamic_sigindices : ℕ
  pub dynamic_sigindice_count : ℕ

-- ===== src/Vm/Context.antt =====
-- vm.h: the part of `struct vmctx` through which host functions reach the linear memory.
use kernel_wasm.Base.{ℕ, ◌+◌, ◌||◌, ltb, leb, if◌then◌else◌, u32, u64}

-- `memory_base` and `memory_bound` of `struct vmctx`; the base is 0 (NULL) without a memory.
pub record Vmctx : Type 0 where
  pub memory_base : ℕ
  pub memory_bound : ℕ

-- `vmctx_get_memory_slice`: the address of the slice, or 0 for NULL. The parameters are
-- `uint32_t`, the sums `unsigned long`.
unfoldable pub vmctx_get_memory_slice : Vmctx → (offset len : ℕ) → ℕ
vmctx_get_memory_slice ctx offset len =
    let begin = u64 (ctx.memory_base + u32 offset) in
    let end = u64 (begin + u32 len) in
    let real_end = u64 (ctx.memory_base + ctx.memory_bound) in
    if ltb end begin || ltb begin ctx.memory_base || leb real_end begin || ltb real_end end
    then 0
    else begin

-- ===== src/Uapi/Transfer.antt =====
-- The handlers of uapi.c that copy between a user buffer and the linear memory stay within it.
use kernel_wasm.Base.{
  ℕ, ◌+◌, ◌≤◌, ◌<◌, ◌≡◌, ◌⊎◌, inl, inr, true, false, some, arith, u32, Option-cases,
}
use kernel_wasm.Kernel.{Kernel, World, IsLawful}
use kernel_wasm.Uapi.Session.{
  Session, Requests, MemoryRequest, handle_wasm_read_memory, handle_wasm_write_memory,
}
use kernel_wasm.Vm.Context.{vmctx_get_memory_slice}
use kernel_wasm.Vm.Slice.{IsPlaced, inside, get_memory_slice_lem}

-- A request for a range of the session's linear memory.
pub record IsGranted (s : Session) (req : MemoryRequest) : Type 0 where
  pub ready : s.ready ≡ true
  pub below : u32 req.offset < s.ee.ctx.memory_bound
  pub within : u32 req.offset + u32 req.len ≤ s.ee.ctx.memory_bound

module _ (os : Kernel) (users : Requests) (arg : ℕ) (s : Session) (w : World) where
  write_confined :
      (req : MemoryRequest) (a : ℕ)
      → IsLawful os
      → IsPlaced s.ee.ctx
      → users.memory w arg ≡ some req
      → inside s.ee.ctx a ≡ false
      → (handle_wasm_write_memory os users arg s w).world.ram a ≡ w.ram a
  unfolding handle_wasm_write_memory
  write_confined req a lawful placed e out =
      let slice = vmctx_get_memory_slice s.ee.ctx req.offset req.len in
      ground (
        arith,
        get_memory_slice_lem s.ee.ctx req.offset req.len placed,
        lawful.within w slice req.buffer (u32 req.len) a,
      )

-- `handle_wasm_write_memory` changes no byte outside the linear memory of the session, whatever is asked
-- for, in a placed memory and with a `copy_from_user` that keeps to its buffer; and none at all if the
-- session is not ready.
pub handle_wasm_write_memory_confined :
    (os : Kernel) (users : Requests) (arg : ℕ) (s : Session) (w : World) (a : ℕ)
    → IsLawful os
    → IsPlaced s.ee.ctx
    → (inside s.ee.ctx a ≡ false) ⊎ (s.ready ≡ false)
    → (handle_wasm_write_memory os users arg s w).world.ram a ≡ w.ram a
unfolding handle_wasm_write_memory
handle_wasm_write_memory_confined os users arg s w a lawful placed out =
    elim (Option-cases (users.memory w arg)) [
      | inl fault ↦ ground arith
      | inr (req, e) ↦ ground (arith, write_confined os users arg s w req a lawful placed e)
    ]

-- The two handlers succeed only for a request that could be read, in a ready session, and for a range
-- inside the linear memory.
pub handle_wasm_memory_checked :
    (os : Kernel) (users : Requests) (arg : ℕ) (s : Session) (w : World)
    → IsPlaced s.ee.ctx
    → ((handle_wasm_read_memory os users arg s w).ret ≡ 0)
      ⊎ ((handle_wasm_write_memory os users arg s w).ret ≡ 0)
    → (req : MemoryRequest) × (users.memory w arg ≡ some req) × IsGranted s req
unfolding handle_wasm_read_memory handle_wasm_write_memory
handle_wasm_memory_checked os users arg s w placed h = elim (Option-cases (users.memory w arg)) [
  | inl fault ↦ absurd (ground arith)
  | inr (req, e) ↦ (req, e, ground (arith, get_memory_slice_lem s.ee.ctx req.offset req.len placed))
]

-- ===== src/Coroutine.antt =====
-- coroutine.h: stack switching. The assembly is a list of instructions, run on a machine with the
-- registers that it names; `co_switch` exchanges the stack pointer with the one that `co->stack` holds.
pub mod Processor
pub mod Halves
pub mod Switch
pub mod Start
use kernel_wasm.Base.{ℕ, List, [], ◌∷◌}
use kernel_wasm.Coroutine.Processor.{
  Register, Instr, push, pop, load, store, move, ret, call, ud2, Machine, down, store_word,
  push_word, run,
}

-- `co_switch`.
unfoldable pub co_switch : List Instr
co_switch =
    push Register.rbx
    ∷ push Register.rbp
    ∷ push Register.r12
    ∷ push Register.r13
    ∷ push Register.r14
    ∷ push Register.r15
    ∷ load Register.rax Register.rdi
    ∷ store Register.rdi Register.rsp
    ∷ move Register.rsp Register.rax
    ∷ pop Register.r15
    ∷ pop Register.r14
    ∷ pop Register.r13
    ∷ pop Register.r12
    ∷ pop Register.rbp
    ∷ pop Register.rbx
    ∷ ret
    ∷ []

-- Addresses of code: the two labels, and the `ud2` behind the call, which it returns to.
pub record Symbols : Type 0 where
  pub call_entry : ℕ
  pub pre_call_entry : ℕ
  pub behind : ℕ

-- `pre_call_entry`.
unfoldable pub pre_call_entry : Symbols → List Instr
pre_call_entry at = pop Register.rax ∷ pop Register.rdi ∷ call Register.rax at.behind ∷ ud2 ∷ []

-- `*(--stack) = v`, on a machine with the local variable `stack`.
abbrev pub put : ℕ → Machine × ℕ → Machine × ℕ
put v (m, stack) = let below = down stack in (store_word below v m, below)

-- The words that `start_coroutine` puts on the new stack.
unfoldable pub build_frame : Symbols → (co stack : ℕ) → Machine → Machine × ℕ
build_frame at co stack m = put 0 (
    put 0 (
      put 0
        (put 0 (put 0 (put 0 (put at.pre_call_entry (put at.call_entry (put co (m, stack)))))))))

-- `start_coroutine`, where `co->stack` is the first field of `*co`; `back` is where `co_switch` returns
-- to.
unfoldable pub start_coroutine : Symbols → (co back : ℕ) → Machine → Machine
unfolding build_frame
start_coroutine at co back m =
    let (m₁, stack) = build_frame at co (m.mem co) m in
    let m₂ = record (store_word co stack m₁) { rdi = co } in run co_switch (push_word back m₂)

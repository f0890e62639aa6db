-- ===== src/Coroutine/Halves.antt =====
-- coroutine.h: the two halves of `co_switch`, one on each stack.
use kernel_wasm.Base.{ℕ, List, [], ◌∷◌, ◌+◌, ◌-◌, ◌^◌, ◌<◌, ◌≤◌, ◌≡◌, refl, ◌≢◌, ◌⊎◌, arith}
use kernel_wasm.Coroutine.{co_switch}
use kernel_wasm.Coroutine.Processor.{
  Register, Instr, push, pop, load, store, move, ret, Machine, run, down, down_lem, up, up_lem,
}

-- The stack that `co_switch` is called on: room for six words below the return address, and `co->stack`
-- outside of them.
pub record HasRoom (m : Machine) : Type 0 where
  pub above : m.rsp + 8 < 2 ^ 64
  pub below : 48 ≤ m.rsp
  pub apart : (m.rdi + 8 ≤ m.rsp - 48) ⊎ (m.rsp + 8 ≤ m.rdi)

-- The stack that it goes to, at `sp`, lies outside of both.
pub record IsApart (m : Machine) (sp : ℕ) : Type 0 where
  pub ends : sp + 56 < 2 ^ 64
  pub stack : (sp + 56 ≤ m.rsp - 48) ⊎ (m.rsp ≤ sp)
  pub pointer : (sp + 56 ≤ m.rdi) ⊎ (m.rdi + 8 ≤ sp)

module _ (m : Machine) (room : HasRoom m) where
  frame_addresses :
      (down m.rsp ≡ m.rsp - 8)
      × (down (m.rsp - 8) ≡ m.rsp - 16)
      × (down (m.rsp - 16) ≡ m.rsp - 24)
      × (down (m.rsp - 24) ≡ m.rsp - 32)
      × (down (m.rsp - 32) ≡ m.rsp - 40)
      × (down (m.rsp - 40) ≡ m.rsp - 48)
  frame_addresses =
      let le = room.below in
      let lt = room.above in
      (
        down_lem m.rsp (m.rsp - 8) (omega arith) (omega arith),
        down_lem (m.rsp - 8) (m.rsp - 16) (omega arith) (omega arith),
        down_lem (m.rsp - 16) (m.rsp - 24) (omega arith) (omega arith),
        down_lem (m.rsp - 24) (m.rsp - 32) (omega arith) (omega arith),
        down_lem (m.rsp - 32) (m.rsp - 40) (omega arith) (omega arith),
        down_lem (m.rsp - 40) (m.rsp - 48) (omega arith) (omega arith),
      )

resumed_addresses :
    (sp : ℕ)
    → sp + 56 < 2 ^ 64
    → (up sp ≡ sp + 8)
      × (up (sp + 8) ≡ sp + 16)
      × (up (sp + 16) ≡ sp + 24)
      × (up (sp + 24) ≡ sp + 32)
      × (up (sp + 32) ≡ sp + 40)
      × (up (sp + 40) ≡ sp + 48)
      × (up (sp + 48) ≡ sp + 56)
resumed_addresses sp lt = (
  up_lem sp (sp + 8) refl (omega arith),
  up_lem (sp + 8) (sp + 16) (omega arith) (omega arith),
  up_lem (sp + 16) (sp + 24) (omega arith) (omega arith),
  up_lem (sp + 24) (sp + 32) (omega arith) (omega arith),
  up_lem (sp + 32) (sp + 40) (omega arith) (omega arith),
  up_lem (sp + 40) (sp + 48) (omega arith) (omega arith),
  up_lem (sp + 48) (sp + 56) (omega arith) (omega arith),
)

-- The two halves of `co_switch`: on the old stack, and on the new one.
unfoldable pub saving : List Instr
saving =
    push Register.rbx
    ∷ push Register.rbp
    ∷ push Register.r12
    ∷ push Register.r13
    ∷ push Register.r14
    ∷ push Register.r15
    ∷ load Register.rax Register.rdi
    ∷ store Register.rdi Register.rsp
    ∷ move Register.rsp Register.rax
    ∷ []

unfoldable pub restoring : List Instr
restoring =
    pop Register.r15
    ∷ pop Register.r14
    ∷ pop Register.r13
    ∷ pop Register.r12
    ∷ pop Register.rbp
    ∷ pop Register.rbx
    ∷ ret
    ∷ []

-- A machine that has what a frame at `sp` holds, in the memory `mem`.
pub record Restored (mem : ℕ → ℕ) (sp : ℕ) (m : Machine) : Type 0 where
  pub r15 : m.r15 ≡ mem sp
  pub r14 : m.r14 ≡ mem (sp + 8)
  pub r13 : m.r13 ≡ mem (sp + 16)
  pub r12 : m.r12 ≡ mem (sp + 24)
  pub rbp : m.rbp ≡ mem (sp + 32)
  pub rbx : m.rbx ≡ mem (sp + 40)
  pub rip : m.rip ≡ mem (sp + 48)
  pub rsp : m.rsp ≡ sp + 56

pub restoring-Restored :
    (m : Machine) → m.rsp + 56 < 2 ^ 64 → Restored m.mem m.rsp (run restoring m)
unfolding restoring
restoring-Restored m lt =
    let (a, b, c, d, f, g, h) = resumed_addresses m.rsp lt in
    record {
      r15 = refl;
      r14 = rw a refl;
      r13 = rw (a, b) refl;
      r12 = rw (a, b, c) refl;
      rbp = rw (a, b, c, d) refl;
      rbx = rw (a, b, c, d, f) refl;
      rip = rw (a, b, c, d, f, g) refl;
      rsp = rw (a, b, c, d, f, g, h) refl;
    }

pub halves : (m : Machine) → run co_switch m ≡ run restoring (run saving m)
unfolding co_switch saving restoring
halves m = refl

-- What the first half leaves on the old stack.
pub record Saved (m₀ m : Machine) : Type 0 where
  pub rsp : m.rsp ≡ m₀.mem m₀.rdi
  pub pointer : m.mem m₀.rdi ≡ m₀.rsp - 48
  pub r15 : m.mem (m₀.rsp - 48) ≡ m₀.r15
  pub r14 : m.mem (m₀.rsp - 40) ≡ m₀.r14
  pub r13 : m.mem (m₀.rsp - 32) ≡ m₀.r13
  pub r12 : m.mem (m₀.rsp - 24) ≡ m₀.r12
  pub rbp : m.mem (m₀.rsp - 16) ≡ m₀.rbp
  pub rbx : m.mem (m₀.rsp - 8) ≡ m₀.rbx
  pub others : (a : ℕ) → a ≢ m₀.rdi → (a + 8 ≤ m₀.rsp - 48) ⊎ (m₀.rsp ≤ a) → m.mem a ≡ m₀.mem a

pub saving-Saved : (m : Machine) → HasRoom m → Saved m (run saving m)
unfolding saving
saving-Saved m room =
    let (a, b, c, d, f, g) = frame_addresses m room in
    record {
      rsp = rw (a, b, c, d, f, g) (ground arith);
      pointer = rw (a, b, c, d, f, g) (ground arith);
      r15 = rw (a, b, c, d, f, g) (ground arith);
      r14 = rw (a, b, c, d, f, g) (ground arith);
      r13 = rw (a, b, c, d, f, g) (ground arith);
      r12 = rw (a, b, c, d, f, g) (ground arith);
      rbp = rw (a, b, c, d, f, g) (ground arith);
      rbx = rw (a, b, c, d, f, g) (ground arith);
      others = λ x other apart. rw (a, b, c, d, f, g) (ground arith);
    }

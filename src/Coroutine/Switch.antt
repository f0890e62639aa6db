-- ===== src/Coroutine/Switch.antt =====
-- coroutine.h: what `co_switch` keeps.
use kernel_wasm.Base.{ℕ, sym, ◌∙◌, ◌+◌, ◌-◌, ◌≤◌, ◌≡◌, refl, ◌≢◌, ◌⊎◌, arith}
use kernel_wasm.Coroutine.{co_switch}
use kernel_wasm.Coroutine.Processor.{Machine, run}
use kernel_wasm.Coroutine.Halves.{
  HasRoom, IsApart, Restored, saving, restoring, restoring-Restored, halves, saving-Saved,
}

-- The second half does not write.
co_switch-mem : (m : Machine) (a : ℕ) → (run co_switch m).mem a ≡ (run saving m).mem a
unfolding co_switch saving
co_switch-mem m a = refl

-- `co_switch` writes at `co->stack` and in its own frame.
pub co_switch-others :
    (m : Machine)
    → HasRoom m
    → (a : ℕ) → a ≢ m.rdi
    → (a + 8 ≤ m.rsp - 48) ⊎ (m.rsp ≤ a)
    → (run co_switch m).mem a ≡ m.mem a
co_switch-others m room a other apart =
    co_switch-mem m a ∙ (saving-Saved m room).others a other apart

-- The memory that one machine left is what another finds: at `co->stack`, and in the frame with the
-- return address above it.
pub record Finds (m₁ m m₂ : Machine) : Type 0 where
  pub holder : m₂.rdi ≡ m.rdi
  pub pointer : m₂.mem m.rdi ≡ m₁.mem m.rdi
  pub frame : (a : ℕ) → m.rsp - 48 ≤ a → a ≤ m.rsp → m₂.mem a ≡ m₁.mem a

-- A machine behind the call of `co_switch` that another made.
pub record IsBack (m m' : Machine) : Type 0 where
  pub rbx : m'.rbx ≡ m.rbx
  pub rbp : m'.rbp ≡ m.rbp
  pub r12 : m'.r12 ≡ m.r12
  pub r13 : m'.r13 ≡ m.r13
  pub r14 : m'.r14 ≡ m.r14
  pub r15 : m'.r15 ≡ m.r15
  pub rsp : m'.rsp ≡ m.rsp + 8
  pub rip : m'.rip ≡ m.mem m.rsp

Restored-agrees :
    (mem mem' : ℕ → ℕ) (sp : ℕ) (m : Machine)
    → ((a : ℕ) → sp ≤ a → a + 8 ≤ sp + 56 → mem a ≡ mem' a)
    → Restored mem sp m
    → Restored mem' sp m
Restored-agrees mem mem' sp m same r = record {
  r15 = r.r15 ∙ same sp (omega arith) (omega arith);
  r14 = r.r14 ∙ same (sp + 8) (omega arith) (omega arith);
  r13 = r.r13 ∙ same (sp + 16) (omega arith) (omega arith);
  r12 = r.r12 ∙ same (sp + 24) (omega arith) (omega arith);
  rbp = r.rbp ∙ same (sp + 32) (omega arith) (omega arith);
  rbx = r.rbx ∙ same (sp + 40) (omega arith) (omega arith);
  rip = r.rip ∙ same (sp + 48) (omega arith) (omega arith);
  rsp = r.rsp;
}

-- `co_switch` goes to the frame that `co->stack` points to.
pub co_switch-Restored :
    (m : Machine)
    → HasRoom m
    → IsApart m (m.mem m.rdi)
    → Restored m.mem (m.mem m.rdi) (run co_switch m)
co_switch-Restored m room apart =
    let sv = saving-Saved m room in
    let r : Restored (run saving m).mem (m.mem m.rdi) (run restoring (run saving m)) =
      rw sv.rsp at (restoring-Restored (run saving m) (rw sv.rsp apart.ends)) in
    rw (halves m) (
      Restored-agrees (run saving m).mem m.mem (m.mem m.rdi) (run restoring (run saving m))
        (λ a low high. sv.others a (ground arith) (ground arith)) r)

-- Control comes back from `co_switch` with everything that a function must keep: if a machine calls it,
-- and later another one calls it for the same coroutine, on a stack that is apart from that frame, and
-- finds `co->stack` and the frame as they were left, then the six registers, the stack pointer and the
-- address to go on at are those that a return from the first call has.
pub co_switch_resumes :
    (m m₂ : Machine)
    → HasRoom m
    → HasRoom m₂
    → Finds (run co_switch m) m m₂
    → IsApart m₂ (m.rsp - 48)
    → IsBack m (run co_switch m₂)
co_switch_resumes m m₂ room room₂ finds apart =
    let sv = saving-Saved m room in
    let kept : (a : ℕ) → m.rsp - 48 ≤ a → a ≤ m.rsp → m₂.mem a ≡ (run saving m).mem a =
      λ a low high. finds.frame a low high ∙ co_switch-mem m a in
    let target : m₂.mem m₂.rdi ≡ m.rsp - 48 =
      rw finds.holder (finds.pointer ∙ co_switch-mem m m.rdi ∙ sv.pointer) in
    let r : Restored m₂.mem (m.rsp - 48) (run co_switch m₂) =
      rw target at (co_switch-Restored m₂ room₂ (rw target apart)) in
    let word : (k a v : ℕ)
        → a ≡ m.rsp - 48 + k
        → k ≤ 48
        → (run saving m).mem a ≡ v
        → m₂.mem (m.rsp - 48 + k) ≡ v =
      λ k a v e le same. rw (sym e) (kept a (omega arith) (ground arith) ∙ same) in
    record {
      rbx = r.rbx ∙ word 40 (m.rsp - 8) m.rbx (ground arith) (omega arith) sv.rbx;
      rbp = r.rbp ∙ word 32 (m.rsp - 16) m.rbp (ground arith) (omega arith) sv.rbp;
      r12 = r.r12 ∙ word 24 (m.rsp - 24) m.r12 (ground arith) (omega arith) sv.r12;
      r13 = r.r13 ∙ word 16 (m.rsp - 32) m.r13 (ground arith) (omega arith) sv.r13;
      r14 = r.r14 ∙ word 8 (m.rsp - 40) m.r14 (ground arith) (omega arith) sv.r14;
      r15 = r.r15 ∙ kept (m.rsp - 48) (omega arith) (ground arith) ∙ sv.r15;
      rsp = ground arith;
      rip =
          r.rip
          ∙ word 48 m.rsp (m.mem m.rsp) (ground arith) (omega arith)
              (sv.others m.rsp (ground arith) (ground arith));
    }

-- ===== src/Coroutine/Start.antt =====
-- coroutine.h: where `start_coroutine` goes, and with which stack.
use kernel_wasm.Base.{ℕ, ◌∙◌, ◌+◌, ◌-◌, ◌^◌, ◌<◌, ◌≤◌, ◌≡◌, refl, ◌⊎◌, arith}
use kernel_wasm.Coroutine.{co_switch, pre_call_entry, Symbols, build_frame, start_coroutine}
use kernel_wasm.Coroutine.Processor.{Machine, run, down, down_lem, up_lem, store_word, push_word}
use kernel_wasm.Coroutine.Halves.{HasRoom, IsApart, Restored}
use kernel_wasm.Coroutine.Switch.{co_switch-Restored, co_switch-others}

-- The caller has room on its stack, and the new stack, whose words end at `co->stack`, lies outside of
-- it and of `*co`.
pub record CanStart (co : ℕ) (m : Machine) : Type 0 where
  pub above : m.rsp < 2 ^ 64
  pub below : 56 ≤ m.rsp
  pub top : m.mem co < 2 ^ 64
  pub bottom : 72 ≤ m.mem co
  pub apart : (co + 8 ≤ m.rsp - 56) ⊎ (m.rsp ≤ co)
  pub stack : (m.mem co ≤ m.rsp - 56) ⊎ (m.rsp ≤ m.mem co - 72)
  pub pointer : (m.mem co ≤ co) ⊎ (co + 8 ≤ m.mem co - 72)

-- The frame, from the top.
pub record Framed (at : Symbols) (self top : ℕ) (built : Machine × ℕ) : Type 0 where
  pub stack : built.1 ≡ top - 72
  pub co : built.0.mem (top - 8) ≡ self
  pub call_entry : built.0.mem (top - 16) ≡ at.call_entry
  pub pre_call_entry : built.0.mem (top - 24) ≡ at.pre_call_entry

new_addresses :
    (top : ℕ)
    → 72 ≤ top
    → top < 2 ^ 64
    → (down top ≡ top - 8)
      × (down (top - 8) ≡ top - 16)
      × (down (top - 16) ≡ top - 24)
      × (down (top - 24) ≡ top - 32)
      × (down (top - 32) ≡ top - 40)
      × (down (top - 40) ≡ top - 48)
      × (down (top - 48) ≡ top - 56)
      × (down (top - 56) ≡ top - 64)
      × (down (top - 64) ≡ top - 72)
new_addresses top le lt = (
  down_lem top (top - 8) (omega arith) (omega arith),
  down_lem (top - 8) (top - 16) (omega arith) (omega arith),
  down_lem (top - 16) (top - 24) (omega arith) (omega arith),
  down_lem (top - 24) (top - 32) (omega arith) (omega arith),
  down_lem (top - 32) (top - 40) (omega arith) (omega arith),
  down_lem (top - 40) (top - 48) (omega arith) (omega arith),
  down_lem (top - 48) (top - 56) (omega arith) (omega arith),
  down_lem (top - 56) (top - 64) (omega arith) (omega arith),
  down_lem (top - 64) (top - 72) (omega arith) (omega arith),
)

build_frame-Framed :
    (at : Symbols) (co top : ℕ) (m : Machine)
    → 72 ≤ top
    → top < 2 ^ 64
    → Framed at co top (build_frame at co top m)
unfolding build_frame
build_frame-Framed at co top m le lt =
    let (a, b, c, d, f, g, h, i, j) = new_addresses top le lt in
    record {
      stack = rw (a, b, c, d, f, g, h, i, j) refl;
      co = rw (a, b, c, d, f, g, h, i, j) (ground arith);
      call_entry = rw (a, b, c, d, f, g, h, i, j) (ground arith);
      pre_call_entry = rw (a, b, c, d, f, g, h, i, j) (ground arith);
    }

-- A machine that has called `call_entry(co)`, with the address behind on the stack.
pub record Entered (at : Symbols) (co top : ℕ) (m : Machine) : Type 0 where
  pub rip : m.rip ≡ at.call_entry
  pub rdi : m.rdi ≡ co
  pub rsp : m.rsp ≡ top - 8
  pub return : m.mem (top - 8) ≡ at.behind

pre_call_entry-Entered :
    (at : Symbols) (co top : ℕ) (m : Machine)
    → 72 ≤ top
    → top < 2 ^ 64
    → m.rsp ≡ top - 16
    → m.mem (top - 16) ≡ at.call_entry
    → m.mem (top - 8) ≡ co
    → Entered at co top (run (pre_call_entry at) m)
unfolding pre_call_entry
pre_call_entry-Entered at co top m le lt sp entry arg =
    let a = up_lem (top - 16) (top - 8) (omega arith) (omega arith) in
    let b = up_lem (top - 8) top (omega arith) (omega arith) in
    let c = down_lem top (top - 8) (omega arith) (omega arith) in
    record {
      rip = rw sp entry;
      rdi = rw (sp, a) arg;
      rsp = rw (sp, a, b, c) refl;
      return = rw (sp, a, b, c) (ground arith);
    }

build_frame-rsp :
    (at : Symbols) (co top : ℕ) (m : Machine) → (build_frame at co top m).0.rsp ≡ m.rsp
unfolding build_frame
build_frame-rsp at co top m = refl

-- At the call of `co_switch`, with the frame built.
abbrev calling : (co back : ℕ) → Machine × ℕ → Machine
calling co back (m, stack) = push_word back (record (store_word co stack m) { rdi = co })

record IsReady (at : Symbols) (co top sp : ℕ) (m : Machine) : Type 0 where
  rdi : m.rdi ≡ co
  rsp : m.rsp ≡ sp - 8
  pointer : m.mem co ≡ top - 72
  call_entry : m.mem (top - 16) ≡ at.call_entry
  arg : m.mem (top - 8) ≡ co
  pre_call_entry : m.mem (top - 24) ≡ at.pre_call_entry

calling-IsReady :
    (at : Symbols) (co back : ℕ) (m : Machine) (built : Machine × ℕ)
    → CanStart co m
    → Framed at co (m.mem co) built
    → built.0.rsp ≡ m.rsp
    → IsReady at co (m.mem co) m.rsp (calling co back built)
calling-IsReady at co back m built can f e =
    let a : down m.rsp ≡ m.rsp - 8 = down_lem m.rsp (m.rsp - 8) (ground arith) (ground arith) in
    record {
      rdi = refl;
      rsp = rw (e, a) refl;
      pointer = rw (e, a, f.stack) (ground arith);
      call_entry = rw (e, a) (ground arith);
      arg = rw (e, a) (ground arith);
      pre_call_entry = rw (e, a) (ground arith);
    }

ready_enters :
    (at : Symbols) (co : ℕ) (m start : Machine)
    → CanStart co m
    → IsReady at co (m.mem co) m.rsp start
    → ((run co_switch start).rip ≡ at.pre_call_entry)
      × Entered at co (m.mem co) (run (pre_call_entry at) (run co_switch start))
ready_enters at co m start can ready =
    let top = m.mem co in
    let to : start.mem start.rdi ≡ top - 72 = rw ready.rdi ready.pointer in
    let room : HasRoom start = ground arith in
    let apart : IsApart start (top - 72) = ground arith in
    let r : Restored start.mem (top - 72) (run co_switch start) =
      rw to at (co_switch-Restored start room (rw to apart)) in
    let kept : (a : ℕ) → top - 72 ≤ a → a + 8 ≤ top → (run co_switch start).mem a ≡ start.mem a =
      λ a low high. co_switch-others start room a (ground arith) (ground arith) in
    let slot : top - 72 + 48 ≡ top - 24 = ground arith in
    (
      r.rip ∙ rw slot ready.pre_call_entry,
      pre_call_entry-Entered at co top (run co_switch start) can.bottom can.top (ground arith)
          (kept (top - 16) (omega arith) (ground arith) ∙ ready.call_entry)
          (kept (top - 8) (omega arith) (ground arith) ∙ ready.arg),
    )

-- A coroutine starts in `call_entry`, called by `pre_call_entry` with the coroutine as its argument, on
-- the new stack, with the return address as its only word: where the caller has room on its own stack,
-- and the two stacks and `co->stack` lie apart.
pub start_coroutine_enters :
    (at : Symbols) (co back : ℕ) (m : Machine)
    → CanStart co m
    → ((start_coroutine at co back m).rip ≡ at.pre_call_entry)
      × Entered at co (m.mem co) (run (pre_call_entry at) (start_coroutine at co back m))
unfolding start_coroutine
start_coroutine_enters at co back m can =
    let top = m.mem co in
    let built = build_frame at co top m in
    ready_enters at co m (calling co back built) can (
      calling-IsReady at co back m built can (build_frame-Framed at co top m can.bottom can.top)
        (build_frame-rsp at co top m))

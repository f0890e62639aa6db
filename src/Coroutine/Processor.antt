-- ===== src/Coroutine/Processor.antt =====
-- The part of an x86-64 that coroutine.h uses: registers, memory in words of eight bytes, and eight
-- instructions.
use kernel_wasm.Base.{ℕ, ◌+◌, ◌-◌, ◌^◌, ◌<◌, ◌≡◌, List, [], ◌∷◌, u64, update, arith}

pub data Register : Type 0 where
  rax rdi rbx rbp r12 r13 r14 r15 rsp : Register

-- AT&T operands, the source first, are turned round: `load dst base` is `mov (base), dst`, `store base
-- src` is `mov src, (base)`. `call r next` is `call *r`, with the address behind it.
pub data Instr : Type 0 where
  push pop : Register → Instr
  load : (dst base : Register) → Instr
  store : (base src : Register) → Instr
  move : (dst src : Register) → Instr
  ret : Instr
  call : (target : Register) (next : ℕ) → Instr
  ud2 : Instr

-- The word at each address; words that overlap are not modelled.
pub record Machine : Type 0 where
  pub rax : ℕ
  pub rdi : ℕ
  pub rbx : ℕ
  pub rbp : ℕ
  pub r12 : ℕ
  pub r13 : ℕ
  pub r14 : ℕ
  pub r15 : ℕ
  pub rsp : ℕ
  pub rip : ℕ
  pub mem : ℕ → ℕ

abbrev pub read : Register → Machine → ℕ
read Register.rax m = m.rax
read Register.rdi m = m.rdi
read Register.rbx m = m.rbx
read Register.rbp m = m.rbp
read Register.r12 m = m.r12
read Register.r13 m = m.r13
read Register.r14 m = m.r14
read Register.r15 m = m.r15
read Register.rsp m = m.rsp

abbrev pub write : Register → ℕ → Machine → Machine
write Register.rax v m = record m { rax = v }
write Register.rdi v m = record m { rdi = v }
write Register.rbx v m = record m { rbx = v }
write Register.rbp v m = record m { rbp = v }
write Register.r12 v m = record m { r12 = v }
write Register.r13 v m = record m { r13 = v }
write Register.r14 v m = record m { r14 = v }
write Register.r15 v m = record m { r15 = v }
write Register.rsp v m = record m { rsp = v }

-- The address of the word below, and of the word above.
unfoldable pub down : ℕ → ℕ
down a = u64 (a + (2 ^ 64 - 8))

unfoldable pub up : ℕ → ℕ
up a = u64 (a + 8)

pub down_lem : (a b : ℕ) → a ≡ b + 8 → a < 2 ^ 64 → down a ≡ b
unfolding down
down_lem a b e lt = omega arith

pub up_lem : (a b : ℕ) → a + 8 ≡ b → b < 2 ^ 64 → up a ≡ b
unfolding up
up_lem a b e lt = omega arith

abbrev pub store_word : (a v : ℕ) → Machine → Machine
store_word a v m = record m { mem = update m.mem a v }

-- What is pushed stands at the new stack pointer.
abbrev pub push_word : ℕ → Machine → Machine
push_word v m = let sp = down m.rsp in record m { rsp = sp; mem = update m.mem sp v }

abbrev pub step : Instr → Machine → Machine
step (Instr.push r) m = push_word (read r m) m
step (Instr.pop r) m = write r (m.mem m.rsp) (record m { rsp = up m.rsp })
step (Instr.load dst base) m = write dst (m.mem (read base m)) m
step (Instr.store base src) m = store_word (read base m) (read src m) m
step (Instr.move dst src) m = write dst (read src m) m
step Instr.ret m = record m { rip = m.mem m.rsp; rsp = up m.rsp }
step (Instr.call r next) m = record (push_word next m) { rip = read r m }
step Instr.ud2 m = m

-- Straight-line code up to the instruction that leaves it.
abbrev pub run : List Instr → Machine → Machine
run [] m = m
run (Instr.ret ∷ _) m = step Instr.ret m
run (Instr.call r next ∷ _) m = step (Instr.call r next) m
run (i ∷ code) m = run code (step i m)

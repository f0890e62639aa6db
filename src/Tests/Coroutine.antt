-- ===== src/Tests/Coroutine.antt =====
-- A machine that starts a coroutine, and one that switches out and in.
use kernel_wasm.Base.{◌≡◌, refl, inl, inr, arith, ◌-◌, ◌==◌, if◌then◌else◌}
use kernel_wasm.Coroutine.{co_switch, pre_call_entry, Symbols, build_frame, start_coroutine}
use kernel_wasm.Coroutine.Processor.{Machine, run, down, up}
use kernel_wasm.Coroutine.Start.{CanStart, Entered, start_coroutine_enters}
use kernel_wasm.Coroutine.Halves.{HasRoom, IsApart}
use kernel_wasm.Coroutine.Switch.{Finds, IsBack, co_switch_resumes}

abbrev labels : Symbols
labels = record { call_entry = 4096; pre_call_entry = 4128; behind = 4160 }

-- `co` is 8192, its stack ends at 65536, and the caller's stack pointer is 131072.
abbrev before : Machine
before = record {
  rax = 0;
  rdi = 8192;
  rbx = 1;
  rbp = 2;
  r12 = 3;
  r13 = 4;
  r14 = 5;
  r15 = 6;
  rsp = 131072;
  rip = 0;
  mem = λ a. if a == 8192 then 65536 else if a == 131072 then 77 else 0;
}

before-CanStart : CanStart 8192 before
before-CanStart = record {
  above = omega arith;
  below = omega arith;
  top = omega arith;
  bottom = omega arith;
  apart = inl (omega arith);
  stack = inl (omega arith);
  pointer = inr (omega arith);
}

start_coroutine_enters_example :
    ((start_coroutine labels 8192 99 before).rip ≡ 4128)
    × Entered labels 8192 65536
        (run (pre_call_entry labels) (start_coroutine labels 8192 99 before))
start_coroutine_enters_example = start_coroutine_enters labels 8192 99 before before-CanStart

-- The argument is in `rdi`.
starts : (run (pre_call_entry labels) (start_coroutine labels 8192 99 before)).rdi ≡ 8192
unfolding start_coroutine build_frame pre_call_entry co_switch down up
starts = refl

-- Later, on another stack, with other registers and the memory as it was left.
abbrev later : Machine
later = record before { rsp = 60000; rbx = 50; r12 = 51; mem = (run co_switch before).mem }

before-HasRoom : HasRoom before
before-HasRoom = record { above = omega arith; below = omega arith; apart = inl (omega arith) }

later-HasRoom : HasRoom later
later-HasRoom = record { above = omega arith; below = omega arith; apart = inl (omega arith) }

later-Finds : Finds (run co_switch before) before later
later-Finds = record { holder = refl; pointer = refl; frame = λ a low high. refl }

later-IsApart : IsApart later (before.rsp - 48)
later-IsApart = record {
  ends = omega arith;
  stack = inr (omega arith);
  pointer = inr (omega arith);
}

co_switch_resumes_example : IsBack before (run co_switch later)
co_switch_resumes_example =
    co_switch_resumes before later before-HasRoom later-HasRoom later-Finds later-IsApart

-- ===== src/Vm/Exec.antt =====
-- vm.h and uapi.c: `ee_make_code_nx` and `ee_make_code_x`, which change the pages of the code, and the
-- callbacks of the preemption notifier.
use kernel_wasm.Base.{
  ℕ, ◌+◌, ◌/◌, ◌%◌, ◌^◌, ◌<◌, ◌≤◌, ◌≡◌, ◌∙◌, ◌⊎◌, inl, inr, Bool, true, false, ltb, leb, ◌&&◌,
  Bool-cases, u64, arith,
}
use kernel_wasm.Vm.Engine.{Engine, round_up_to_page_size}

-- Which pages may be executed, by their number.
abbrev pub Pages : Type 0
Pages = ℕ → Bool

-- The kernel's part: `set_memory_x` and `set_memory_nx`.
pub record Attributes : Type 0 where
  pub set_memory_x : (addr count : ℕ) → Pages → Pages
  pub set_memory_nx : (addr count : ℕ) → Pages → Pages

-- They change just the `count` pages from the address on.
pub record IsPaged (set : (addr count : ℕ) → Pages → Pages) (x : Bool) : Type 0 where
  pub within :
      (addr count : ℕ) (pages : Pages) (p : ℕ)
      → addr / 4096 ≤ p
      → p < addr / 4096 + count
      → set addr count pages p ≡ x
  pub outside :
      (addr count : ℕ) (pages : Pages) (p : ℕ)
      → (p < addr / 4096) ⊎ (addr / 4096 + count ≤ p)
      → set addr count pages p ≡ pages p

module _ (os : Attributes) where
  -- `ee_make_code_nx`.
  unfoldable pub ee_make_code_nx : Engine → Pages → Pages
  ee_make_code_nx ee = os.set_memory_nx ee.code (round_up_to_page_size ee.code_len / 4096)

  -- `ee_make_code_x`.
  unfoldable pub ee_make_code_x : Engine → Pages → Pages
  ee_make_code_x ee = os.set_memory_x ee.code (round_up_to_page_size ee.code_len / 4096)

-- `code_runner_sched_in` and `code_runner_sched_out`; the counters are `uint64_t`.
unfoldable pub code_runner_sched_in : Engine → Engine
code_runner_sched_in ee = record ee { preempt_in_count = u64 (ee.preempt_in_count + 1) }

unfoldable pub code_runner_sched_out : Engine → Engine
code_runner_sched_out ee = record ee { preempt_out_count = u64 (ee.preempt_out_count + 1) }

-- The pages that hold the code.
abbrev pub HoldsCode : Engine → (p : ℕ) → Type 0
HoldsCode ee p =
    (ee.code / 4096 ≤ p) × (p < ee.code / 4096 + round_up_to_page_size ee.code_len / 4096)

module _ (os : Attributes) (ee : Engine) where
  -- After `ee_make_code_nx` no byte of the code can be executed.
  ee_make_code_nx_lem :
      (pages : Pages) (a : ℕ)
      → IsPaged os.set_memory_nx false
      → ee.code % 4096 ≡ 0
      → ee.code_len < 2 ^ 32
      → ee.code ≤ a
      → a < ee.code + ee.code_len
      → ee_make_code_nx os ee pages (a / 4096) ≡ false
  unfolding ee_make_code_nx
  ee_make_code_nx_lem pages a nx aligned small low high =
      nx.within ee.code (round_up_to_page_size ee.code_len / 4096) pages (a / 4096) (omega arith)
        (omega arith)

  -- `ee_make_code_x` undoes it, if the pages of the code could be executed.
  ee_make_code_x-ee_make_code_nx :
      (pages : Pages) (p : ℕ)
      → IsPaged os.set_memory_x true
      → IsPaged os.set_memory_nx false
      → ((q : ℕ) → HoldsCode ee q → pages q ≡ true)
      → ee_make_code_x os ee (ee_make_code_nx os ee pages) p ≡ pages p
  unfolding ee_make_code_nx ee_make_code_x
  ee_make_code_x-ee_make_code_nx pages p x nx code_x =
      let first = ee.code / 4096 in
      let count = round_up_to_page_size ee.code_len / 4096 in
      let made = ee_make_code_nx os ee pages in
      elim (Bool-cases (leb first p && ltb p (first + count))) [
        | inl inside ↦
            x.within ee.code count made p (ground arith) (ground arith) ∙ ground (arith, code_x p)
        | inr other ↦
            x.outside ee.code count made p (ground arith)
            ∙ nx.outside ee.code count pages p (ground arith)
      ]

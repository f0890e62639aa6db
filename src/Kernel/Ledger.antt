-- ===== src/Kernel/Ledger.antt =====
-- Which allocations a log has made and freed.
use kernel_wasm.Base.{
  ℕ, ◌+◌, ◌≡◌, ◌≢◌, arith, Bool, true, false, List, [], ◌∷◌, ◌==◌, if◌then◌else◌,
}
use kernel_wasm.Kernel.{Kind, virt, page, area, heap, Event, World}

abbrev pub same_kind : Kind → Kind → Bool
same_kind virt virt = true
same_kind page page = true
same_kind area area = true
same_kind heap heap = true
same_kind _ _ = false

-- 1 if the two addresses are the same, else 0.
unfoldable pub hit : ℕ → ℕ → ℕ
hit p q = if q == p then 1 else 0

pub hit-zero : (p : ℕ) → p ≢ 0 → hit p 0 ≡ 0
unfolding hit
hit-zero p used = ground arith

abbrev pub hit_kind : Kind → ℕ → Kind → ℕ → ℕ
hit_kind kind p kind' q = if same_kind kind kind' then hit p q else 0

-- How often an allocator has returned the address, and how often it was freed there.
abbrev pub allocs : Kind → ℕ → List Event → ℕ
allocs kind p [] = 0
allocs kind p (Event.alloc kind' q ∷ log) = hit_kind kind p kind' q + allocs kind p log
allocs kind p (_ ∷ log) = allocs kind p log

abbrev pub frees : Kind → ℕ → List Event → ℕ
frees kind p [] = 0
frees kind p (Event.free kind' q ∷ log) = hit_kind kind p kind' q + frees kind p log
frees kind p (_ ∷ log) = frees kind p log

-- Since `w` the address was allocated `n` times more than it was freed.
abbrev pub Gained : Kind → ℕ → World → World → ℕ → Type 0
Gained kind p w w' n =
    allocs kind p w'.log + frees kind p w.log ≡ frees kind p w'.log + allocs kind p w.log + n

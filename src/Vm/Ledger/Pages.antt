-- ===== src/Vm/Ledger/Pages.antt =====
-- The page loops of vm.c in the ledger.
use kernel_wasm.Base.{
  ℕ, zero, suc, ◌+◌, ◌<◌, ◌≡◌, refl, ◌≢◌, Option, none, some, ◌∷◌, false, arith, total, update,
}
use kernel_wasm.Kernel.{Kernel, Kind, page, World, Event, emit}
use kernel_wasm.Kernel.Ledger.{hit, hit-zero, allocs, frees, same_kind}
use kernel_wasm.Vm.Pages.{alloc_pages, free_pages}

-- How many of the first `n` pages stand at the address.
abbrev pub page_hits : ℕ → ℕ → (ℕ → ℕ) → ℕ
page_hits p n pages = total n (λ i. hit p (pages i))

-- The index at which the loop stopped.
abbrev pub stop_index : Option ℕ → ℕ → ℕ
stop_index none end = end
stop_index (some i) end = i

module _ (os : Kernel) where
  -- The loop leaves the entries below its start.
  pub alloc_pages-below :
      (left i j : ℕ) (pages : ℕ → ℕ) (w : World)
      → j < i
      → (alloc_pages os left i pages w).memory_page j ≡ pages j
  unfolding alloc_pages
  alloc_pages-below zero i j pages w lt = refl
  alloc_pages-below (suc left) i j pages w lt =
      let p = os.allocate w page 4096 in
      ground (
        arith,
        alloc_pages-below left (suc i) j (update pages i p)
            (record w { log = Event.alloc page p ∷ w.log }),
      )

  module _ (p : ℕ) (used : p ≢ 0) where
    -- What the loop allocated stands in the array, up to where it stopped.
    pub alloc_pages-page :
        (left i end : ℕ) (pages : ℕ → ℕ) (w : World)
        → i + left ≡ end
        → allocs page p (alloc_pages os left i pages w).world.log
            + page_hits p i (alloc_pages os left i pages w).memory_page
          ≡ allocs page p w.log
            + page_hits p
                (stop_index (alloc_pages os left i pages w).failed end)
                (alloc_pages os left i pages w).memory_page
    unfolding alloc_pages total
    alloc_pages-page zero i end pages w e = let e' : i ≡ end = omega arith in rw e'
    alloc_pages-page (suc left) i end pages w e =
        let q = os.allocate w page 4096 in
        let w₁ : World = record w { log = Event.alloc page q ∷ w.log } in
        ground (
          arith,
          alloc_pages-below left (suc i) i (update pages i q) w₁,
          alloc_pages-page left (suc i) end (update pages i q) w₁,
          hit-zero p,
        )

  -- It frees nothing, and makes no other allocations.
  pub alloc_pages-frees :
      (kind : Kind) (p left i : ℕ) (pages : ℕ → ℕ) (w : World)
      → frees kind p (alloc_pages os left i pages w).world.log ≡ frees kind p w.log
  unfolding alloc_pages
  alloc_pages-frees kind p zero i pages w = refl
  alloc_pages-frees kind p (suc left) i pages w =
      let q = os.allocate w page 4096 in
      ground (
        arith,
        alloc_pages-frees kind p left (suc i) (update pages i q)
            (record w { log = Event.alloc page q ∷ w.log }),
      )

  pub alloc_pages-other :
      (kind : Kind) (p left i : ℕ) (pages : ℕ → ℕ) (w : World)
      → same_kind kind page ≡ false
      → allocs kind p (alloc_pages os left i pages w).world.log ≡ allocs kind p w.log
  unfolding alloc_pages
  alloc_pages-other kind p zero i pages w other = refl
  alloc_pages-other kind p (suc left) i pages w other =
      let q = os.allocate w page 4096 in
      ground (
        arith,
        alloc_pages-other kind p left (suc i) (update pages i q)
            (record w { log = Event.alloc page q ∷ w.log }) other,
      )

-- The freeing loop frees what stands in the range.
pub free_pages-page :
    (p left i end : ℕ) (pages : ℕ → ℕ) (w : World)
    → i + left ≡ end
    → frees page p (free_pages left i pages w).log + page_hits p i pages
      ≡ frees page p w.log + page_hits p end pages
unfolding free_pages total
free_pages-page p zero i end pages w e = let e' : i ≡ end = omega arith in rw e'
free_pages-page p (suc left) i end pages w e =
    ground (arith, free_pages-page p left (suc i) end pages (emit (Event.free page (pages i)) w))

pub free_pages-other :
    (kind : Kind) (p left i : ℕ) (pages : ℕ → ℕ) (w : World)
    → same_kind kind page ≡ false
    → frees kind p (free_pages left i pages w).log ≡ frees kind p w.log
unfolding free_pages
free_pages-other kind p zero i pages w other = refl
free_pages-other kind p (suc left) i pages w other =
    ground
      (arith, free_pages-other kind p left (suc i) pages (emit (Event.free page (pages i)) w) other)

pub free_pages-allocs :
    (kind : Kind) (p left i : ℕ) (pages : ℕ → ℕ) (w : World)
    → allocs kind p (free_pages left i pages w).log ≡ allocs kind p w.log
unfolding free_pages
free_pages-allocs kind p zero i pages w = refl
free_pages-allocs kind p (suc left) i pages w =
    free_pages-allocs kind p left (suc i) pages (emit (Event.free page (pages i)) w)

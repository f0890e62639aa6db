-- ===== src/Vm/Grow/Account.antt =====
-- `wasm_memory_grow` of vm.c in the account of allocations: the pages that it allocates are those that
-- the engine gains, unless the mapping fails.
use kernel_wasm.Base.{
  ℕ, zero, suc, ◌+◌, ◌-◌, ◌*◌, ◌/◌, ◌≤◌, ◌<◌, ◌≡◌, refl, ◌≢◌, ◌⊎◌, inl, inr, some, ◌∷◌, arith, neg,
  u32, u64, ltb, total-congr, update, ap, Bool-cases, Option-cases, ◌==◌,
}
use kernel_wasm.Kernel.{Kernel, Kind, virt, page, World, Event, page_size}
use kernel_wasm.Kernel.Ledger.{hit}
use kernel_wasm.Vm.Context.{Vmctx}
use kernel_wasm.Vm.Engine.{Engine, static_memory_available}
use kernel_wasm.Vm.Grow.{Grown, map_grown, use_pages, wasm_memory_grow}
use kernel_wasm.Vm.Grow.Size.{IsSized}
use kernel_wasm.Vm.Ledger.Owned.{owned, Accounts}
use kernel_wasm.Vm.Ledger.Pages.{
  page_hits, stop_index, alloc_pages-below, alloc_pages-page, alloc_pages-frees, alloc_pages-other,
  free_pages-page, free_pages-other, free_pages-allocs,
}
use kernel_wasm.Vm.Pages.{Allocated, alloc_pages, free_pages, clear_pages}

pub alloc_pages-index :
    (os : Kernel) (left i j : ℕ) (pages : ℕ → ℕ) (w : World)
    → (alloc_pages os left i pages w).failed ≡ some j
    → i ≤ j
unfolding alloc_pages
alloc_pages-index os zero i j pages w e = cc
alloc_pages-index os (suc left) i j pages w e =
    let q = os.allocate w page 4096 in
    ground (
      arith,
      alloc_pages-index os left (suc i) j (update pages i q)
          (record w { log = Event.alloc page q ∷ w.log }),
    )

clear_pages-below : (left i j : ℕ) (pages : ℕ → ℕ) → j < i → clear_pages left i pages j ≡ pages j
unfolding clear_pages
clear_pages-below zero i j pages lt = refl
clear_pages-below (suc left) i j pages lt =
    ground (arith, clear_pages-below left (suc i) j (update pages i 0))

module _ (os : Kernel) (p : ℕ) (used : p ≢ 0) (left new : ℕ) (ee : Engine) (w : World)
    (reached : ee.memory_page_count + left ≡ new) where
  abbrev r : Allocated
  r = alloc_pages os left ee.memory_page_count ee.memory_page w

  pub same_hits :
      page_hits p ee.memory_page_count r.memory_page
      ≡ page_hits p ee.memory_page_count ee.memory_page
  same_hits =
      total-congr ee.memory_page_count (λ i. hit p (r.memory_page i))
        (λ i. hit p (ee.memory_page i))
        (λ i lt. ap (hit p) (alloc_pages-below os left ee.memory_page_count i ee.memory_page w lt))

  cleared_hits :
      (n : ℕ)
      → page_hits p ee.memory_page_count (clear_pages n ee.memory_page_count r.memory_page)
        ≡ page_hits p ee.memory_page_count r.memory_page
  cleared_hits n =
      total-congr ee.memory_page_count
        (λ i. hit p (clear_pages n ee.memory_page_count r.memory_page i))
        (λ i. hit p (r.memory_page i))
        (λ i lt. ap (hit p) (clear_pages-below n ee.memory_page_count i r.memory_page lt))

  -- The account after the loop, as if the page count were already `end`.
  pub allocated :
      (kind : Kind) (w₀ : World) (end : ℕ)
      → ee.memory_pages ≢ 0
      → stop_index r.failed new ≡ end
      → Accounts kind p w₀ w ee
      → Accounts kind p w₀ r.world
          (record ee { memory_page = r.memory_page; memory_page_count = end })
  allocated page w₀ end array stopped h =
      let e = alloc_pages-page os p used left ee.memory_page_count new ee.memory_page w reached in
      ground (
        arith,
        same_hits,
        rw stopped at e,
        alloc_pages-frees os page p left ee.memory_page_count ee.memory_page w,
      )
  allocated kind w₀ end array stopped h = omega (
    arith,
    alloc_pages-other os kind p left ee.memory_page_count ee.memory_page w refl,
    alloc_pages-frees os kind p left ee.memory_page_count ee.memory_page w,
  )

  pub given_back :
      (kind : Kind) (w₀ : World) (i : ℕ)
      → ee.memory_pages ≢ 0
      → r.failed ≡ some i
      → Accounts kind p w₀ w ee
      → Accounts kind p w₀
          (free_pages (i - ee.memory_page_count) ee.memory_page_count r.memory_page r.world)
          (record ee {
            memory_page = clear_pages (i - ee.memory_page_count) ee.memory_page_count r.memory_page;
          })
  given_back page w₀ i array e h =
      let count = ee.memory_page_count in
      let from : count ≤ i = alloc_pages-index os left count i ee.memory_page w e in
      let stopped : stop_index r.failed new ≡ i = rw e in
      ground (
        arith,
        allocated page w₀ i array stopped h,
        cleared_hits (i - count),
        free_pages-page p (i - count) count i r.memory_page r.world (omega arith),
        free_pages-allocs page p (i - count) count r.memory_page r.world,
      )
  given_back kind w₀ i array e h =
      let count = ee.memory_page_count in
      let stopped : stop_index r.failed new ≡ i = rw e in
      omega (
        arith,
        allocated kind w₀ i array stopped h,
        free_pages-other kind p (i - count) count r.memory_page r.world refl,
        free_pages-allocs kind p (i - count) count r.memory_page r.world,
      )

-- The account after a growth to `new` pages: in order, or, where the mapping failed, in order for an
-- engine that counted the new pages.
abbrev pub Fate : Kernel → Kind → (p new : ℕ) → World → Grown → Type 0
Fate os kind p new w₀ g =
    Accounts kind p w₀ g.world g.ee
    ⊎ ((g.ret ≡ neg 1)
        × ((v : World) × (addr : ℕ) × (size : ℕ) × (os.map_range v addr size ≢ size / page_size))
        × Accounts kind p w₀ g.world (record g.ee { memory_page_count = new }))

pub owned-ctx :
    (kind : Kind) (p : ℕ) (ee : Engine) (ctx : Vmctx)
    → owned kind p (record ee { ctx = ctx }) ≡ owned kind p ee
owned-ctx virt p ee ctx = refl
owned-ctx _ p ee ctx = refl

map_grown-Fate :
    (os : Kernel) (kind : Kind) (p delta new : ℕ) (ee : Engine) (w₀ w : World)
    → Accounts kind p w₀ w (record ee { memory_page_count = new })
    → Fate os kind p new w₀ (map_grown os delta new ee w)
unfolding map_grown
map_grown-Fate os kind p delta new ee w₀ w h =
    let start = os.area_addr ee.static_memory_vm + ee.ctx.memory_bound in
    elim (Bool-cases (os.map_range w start delta == delta / page_size)) [
      | inl mapped ↦ rw mapped (
          inl (
            omega (
              arith,
              owned-ctx kind p (record ee { memory_page_count = new })
                  (record ee.ctx { memory_bound = u64 (ee.ctx.memory_bound + delta) }),
            )))
      | inr failed ↦ rw failed (inr (refl, (w, start, delta, ground arith), h))
    ]

use_pages-Fate :
    (os : Kernel) (kind : Kind) (p left delta new : ℕ) (ee : Engine) (w₀ w : World)
    → p ≢ 0
    → ee.memory_page_count + left ≡ new
    → ee.memory_pages ≢ 0
    → Accounts kind p w₀ w ee
    → Fate os kind p new w₀
        (use_pages os delta new ee (alloc_pages os left ee.memory_page_count ee.memory_page w))
unfolding use_pages
use_pages-Fate os kind p left delta new ee w₀ w used reached array h =
    elim (Option-cases r.failed) [
      | inl all ↦ rw all (
          map_grown-Fate os kind p delta new (record ee { memory_page = r.memory_page }) w₀ r.world
            (allocated os p used left new ee w reached kind w₀ new array (rw all) h))
      | inr (i, e) ↦ rw e (inl (given_back os p used left new ee w reached kind w₀ i array e h))
    ]
  where
    r : Allocated
    r = alloc_pages os left ee.memory_page_count ee.memory_page w

-- Where the pages back the size of the memory and the engine's account is in order, `wasm_memory_grow`
-- leaves the account in order on every path but one: no page is lost, and none freed that the engine
-- still holds. The exception is a failed `map_kernel_range_noflush`: then -1 is returned, and the account
-- is that of an engine whose page count includes the new pages.
pub wasm_memory_grow_accounts :
    (os : Kernel) (pages : ℕ) (ee : Engine) (w₀ w : World) (kind : Kind) (p : ℕ)
    → p ≢ 0
    → IsSized ee
    → ee.memory_pages ≢ 0
    → Accounts kind p w₀ w ee
    → Fate os kind p
        ((ee.ctx.memory_bound + u32 pages * 65536) / page_size)
        w₀
        (wasm_memory_grow os pages ee w)
unfolding wasm_memory_grow
wasm_memory_grow_accounts os pages ee w₀ w kind p used sized array h =
    elim (Bool-cases (ee.ctx.memory_base == 0)) [
      | inl absent ↦ rw absent (inl h)
      | inr present ↦ rw present (elim (Bool-cases (u32 pages == 0)) [
        | inl nothing ↦ rw nothing (inl h)
        | inr some_pages ↦
            rw some_pages
              (elim (Bool-cases (ltb static_memory_available (u64 (old_size + delta)))) [
                | inl large ↦ rw large (inl h)
                | inr fits ↦ rw fits (
                    rw whole (
                      use_pages-Fate os kind p (new - count) delta new ee w₀ w used (omega arith)
                        array h))
              ])
      ])
    ]
  where
    old_size : ℕ
    old_size = ee.ctx.memory_bound

    count : ℕ
    count = ee.memory_page_count

    delta : ℕ
    delta = u64 (u32 pages * 65536)

    new : ℕ
    new = u64 (old_size + delta) / page_size

    whole : (old_size + u32 pages * 65536) / page_size ≡ new
    whole = ap (λ n. n / page_size) (omega (arith, sized.available))

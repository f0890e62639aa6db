-- ===== src/Vm/Grow/Lost.antt =====
-- `wasm_memory_grow` of vm.c: the pages that a failed mapping leaves without an owner.
use kernel_wasm.Base.{
  ℕ, zero, suc, ◌+◌, ◌-◌, ◌*◌, ◌/◌, ◌≤◌, ◌≡◌, refl, ◌≢◌, inl, inr, Bool, true, false, none, some,
  List, ◌∷◌, arith, u32, u64, ltb, update, Bool-cases, Option-cases, ◌==◌, ◌&&◌, if◌then◌else◌, neg,
}
use kernel_wasm.Kernel.{Kernel, Kind, virt, page, area, heap, World, Event, emit, page_size}
use kernel_wasm.Kernel.Ledger.{hit, same_kind, allocs, frees}
use kernel_wasm.Vm.Engine.{Engine, static_memory_available}
use kernel_wasm.Vm.Grow.{Grown, map_grown, use_pages, wasm_memory_grow}
use kernel_wasm.Vm.Grow.Account.{same_hits, allocated, given_back, owned-ctx}
use kernel_wasm.Vm.Ledger.Owned.{owned, Accounts}
use kernel_wasm.Vm.Ledger.Pages.{alloc_pages-frees, alloc_pages-other}
use kernel_wasm.Vm.Sized.{IsBacked}
use kernel_wasm.Vm.Pages.{Allocated, alloc_pages, free_pages, clear_pages}

-- The last call was `map_kernel_range_noflush`: the flush that follows when it succeeds did not.
abbrev pub ends_in_map : List Event → Bool
ends_in_map (Event.map _ _ ∷ _) = true
ends_in_map _ = false

-- The pages that were allocated from `w` to `w'`, if `w'` is where a mapping failed, else nothing.
unfoldable pub unmapped : Kind → ℕ → World → World → ℕ
unmapped kind p w w' =
    if ends_in_map w'.log && same_kind kind page
    then allocs kind p w'.log - allocs kind p w.log
    else 0

-- From one engine and world to the others just what the engine owns was allocated and not freed, and
-- what was lost.
abbrev pub Balances : Kind → ℕ → Engine → World → Engine → World → ℕ → Type 0
Balances kind p ee w ee' w' lost =
    allocs kind p w'.log + frees kind p w.log + owned kind p ee
    ≡ frees kind p w'.log + allocs kind p w.log + owned kind p ee' + lost

-- The world `w` as if the address had been freed `n` times more.
abbrev freed : Kind → ℕ → ℕ → List Event → List Event
freed kind p zero log = log
freed kind p (suc n) log = Event.free kind p ∷ freed kind p n log

freed-allocs :
    (kind : Kind) (p n : ℕ) (log : List Event)
    → allocs kind p (freed kind p n log) ≡ allocs kind p log
freed-allocs kind p zero log = refl
freed-allocs kind p (suc n) log = freed-allocs kind p n log

same_kind_refl : (kind : Kind) → same_kind kind kind ≡ true
same_kind_refl virt = refl
same_kind_refl page = refl
same_kind_refl area = refl
same_kind_refl heap = refl

freed-frees :
    (kind : Kind) (p n : ℕ) (log : List Event)
    → frees kind p (freed kind p n log) ≡ n + frees kind p log
unfolding hit
freed-frees kind p zero log = omega arith
freed-frees kind p (suc n) log = ground (arith, freed-frees kind p n log, same_kind_refl kind)

module _ (kind : Kind) (p : ℕ) (ee : Engine) (w : World) where
  -- A world since which the engine's account is in order.
  abbrev since : World
  since = record w { log = freed kind p (owned kind p ee) w.log }

  since-Accounts : Accounts kind p since w ee
  since-Accounts = omega (
    arith,
    freed-allocs kind p (owned kind p ee) w.log,
    freed-frees kind p (owned kind p ee) w.log,
  )

  Accounts-Balances :
      (ee' : Engine) (w' : World) → Accounts kind p since w' ee' → Balances kind p ee w ee' w' 0
  Accounts-Balances ee' w' h = omega (
    arith,
    freed-allocs kind p (owned kind p ee) w.log,
    freed-frees kind p (owned kind p ee) w.log,
  )

alloc_pages-le :
    (os : Kernel) (kind : Kind) (p left i : ℕ) (pages : ℕ → ℕ) (w : World)
    → allocs kind p w.log ≤ allocs kind p (alloc_pages os left i pages w).world.log
unfolding alloc_pages
alloc_pages-le os kind p zero i pages w = omega arith
alloc_pages-le os kind p (suc left) i pages w =
    let q = os.allocate w page 4096 in
    ground (
      arith,
      alloc_pages-le os kind p left (suc i) (update pages i q)
          (record w { log = Event.alloc page q ∷ w.log }),
    )

alloc_pages-ends :
    (os : Kernel) (left i j : ℕ) (pages : ℕ → ℕ) (w : World)
    → (alloc_pages os left i pages w).failed ≡ some j
    → ends_in_map (alloc_pages os left i pages w).world.log ≡ false
unfolding alloc_pages
alloc_pages-ends os zero i j pages w e = cc
alloc_pages-ends os (suc left) i j pages w e =
    let q = os.allocate w page 4096 in
    ground (
      arith,
      alloc_pages-ends os left (suc i) j (update pages i q)
          (record w { log = Event.alloc page q ∷ w.log }),
    )

free_pages-ends :
    (left i : ℕ) (pages : ℕ → ℕ) (w : World)
    → ends_in_map w.log ≡ false
    → ends_in_map (free_pages left i pages w).log ≡ false
unfolding free_pages
free_pages-ends zero i pages w e = e
free_pages-ends (suc left) i pages w e =
    free_pages-ends left (suc i) pages (emit (Event.free page (pages i)) w) refl

module _ (os : Kernel) (kind : Kind) (p : ℕ) (used : p ≢ 0) (ee : Engine) (w : World) where
  -- The growth balances, with what its failed mapping lost.
  abbrev Settles : Grown → Type 0
  Settles g = Balances kind p ee w g.ee g.world (unmapped kind p w g.world)

  still-Settles : (ret : ℕ) → Settles (record { ret = ret; ee = ee; world = w })
  unfolding unmapped
  still-Settles ret = ground arith

  module _ (left delta new : ℕ) (reached : ee.memory_page_count + left ≡ new)
      (array : ee.memory_pages ≢ 0) where
    abbrev r : Allocated
    r = alloc_pages os left ee.memory_page_count ee.memory_page w

    owned-pages : (k : Kind) → owned k p (record ee { memory_page = r.memory_page }) ≡ owned k p ee
    owned-pages page = ground (arith, same_hits os p used left new ee w reached)
    owned-pages virt = refl
    owned-pages area = refl
    owned-pages heap = refl

    map_grown-Settles :
        r.failed ≡ none
        → Settles (map_grown os delta new (record ee { memory_page = r.memory_page }) r.world)
    unfolding map_grown unmapped
    map_grown-Settles all =
        let start = os.area_addr ee.static_memory_vm + ee.ctx.memory_bound in
        elim (Bool-cases (os.map_range r.world start delta == delta / page_size)) [
          | inl mapped ↦ rw mapped (
              omega (
                arith,
                Accounts-Balances kind p ee w
                    (record ee { memory_page = r.memory_page; memory_page_count = new }) r.world
                    (allocated os p used left new ee w reached kind (since kind p ee w) new array
                      (rw all refl) (since-Accounts kind p ee w)),
                owned-ctx kind p
                    (record ee { memory_page = r.memory_page; memory_page_count = new })
                    (record ee.ctx { memory_bound = u64 (ee.ctx.memory_bound + delta) }),
              ))
          | inr failed ↦ rw failed (elim (Bool-cases (same_kind kind page)) [
            | inl of_pages ↦ rw of_pages (
                omega (
                  arith,
                  owned-pages kind,
                  alloc_pages-le os kind p left ee.memory_page_count ee.memory_page w,
                  alloc_pages-frees os kind p left ee.memory_page_count ee.memory_page w,
                ))
            | inr other ↦ rw other (
                omega (
                  arith,
                  owned-pages kind,
                  alloc_pages-other os kind p left ee.memory_page_count ee.memory_page w other,
                  alloc_pages-frees os kind p left ee.memory_page_count ee.memory_page w,
                ))
          ])
        ]

    -- What is left when a page could not be allocated.
    abbrev back : ℕ → Engine × World
    back i =
        let count = ee.memory_page_count in
        (
          record ee { memory_page = clear_pages (i - count) count r.memory_page },
          free_pages (i - count) count r.memory_page r.world,
        )

    given_back-Settles : (i : ℕ) → r.failed ≡ some i → Settles (use_pages os delta new ee r)
    unfolding use_pages unmapped
    given_back-Settles i e =
        let count = ee.memory_page_count in
        rw
          (
            e,
            free_pages-ends (i - count) count r.memory_page r.world
                (alloc_pages-ends os left count i ee.memory_page w e),
          )
          (Accounts-Balances kind p ee w (back i).0 (back i).1 (
            given_back os p used left new ee w reached kind (since kind p ee w) i array e
              (since-Accounts kind p ee w)))

    use_pages-Settles : Settles (use_pages os delta new ee r)
    unfolding use_pages
    use_pages-Settles = elim (Option-cases r.failed) [
      | inl all ↦ rw all (map_grown-Settles all)
      | inr (i, e) ↦ given_back-Settles i e
    ]

-- Where the pages back the size of the memory, a growth balances: the pages that it allocates and does
-- not free are those that the engine gains and those of a mapping that failed.
pub wasm_memory_grow-Balances :
    (os : Kernel) (pages : ℕ) (ee : Engine) (w : World) (kind : Kind) (p : ℕ)
    → p ≢ 0
    → IsBacked ee
    → Balances kind p ee w
        (wasm_memory_grow os pages ee w).ee
        (wasm_memory_grow os pages ee w).world
        (unmapped kind p w (wasm_memory_grow os pages ee w).world)
unfolding wasm_memory_grow
wasm_memory_grow-Balances os pages ee w kind p used b =
    elim (Bool-cases (ee.ctx.memory_base == 0)) [
      | inl absent ↦ rw absent (still (neg 1))
      | inr present ↦ rw present (elim (Bool-cases (u32 pages == 0)) [
        | inl nothing ↦ rw nothing (still (u32 (old_size / 65536)))
        | inr some_pages ↦
            rw some_pages
              (elim (Bool-cases (ltb static_memory_available (u64 (old_size + delta)))) [
                | inl large ↦ rw large (still (neg 1))
                | inr fits ↦ rw fits (
                    let sized = b.sized in
                    let paged = b.paged in
                    use_pages-Settles os kind p used ee w (new - count) delta new
                      (omega (arith, sized.available)) (ground arith))
              ])
      ])
    ]
  where
    old_size : ℕ
    old_size = ee.ctx.memory_bound

    count : ℕ
    count = ee.memory_page_count

    delta : ℕ
    delta = u64 (u32 pages * 65536)

    new : ℕ
    new = u64 (old_size + delta) / page_size

    still : (ret : ℕ) → Settles os kind p used ee w (record { ret = ret; ee = ee; world = w })
    still = still-Settles os kind p used ee w

-- ===== src/Kernel.antt =====
-- What kapi.c, vm.c and uapi.c use of the Linux kernel: its allocators, page tables and user copies.
-- The kernel is a parameter; the model records the calls in a log.
pub mod Ledger
use Prim.Native.String.{String}
use kernel_wasm.Base.{ℕ, ◌+◌, ◌≤◌, ◌<◌, ◌≡◌, ◌⊎◌, Ram, Option, List, ◌∷◌}

-- The allocators, each with its own function that frees.
pub data Kind : Type 0 where
  virt : Kind  -- `__vmalloc`, `vmalloc`, `vzalloc`; `vfree`
  page : Kind  -- `alloc_page`; `__free_page`
  area : Kind  -- `__get_vm_area`; `free_vm_area`
  heap : Kind  -- `kmalloc`; `kfree`

-- Constants of the kernel: `-errno` values and the page size of x86-64.
abbrev pub enomem : ℕ
enomem = 12

abbrev pub efault : ℕ
efault = 14

abbrev pub einval : ℕ
einval = 22

abbrev pub page_size : ℕ
page_size = 4096

pub data Event : Type 0 where
  alloc : (kind : Kind) (p : ℕ) → Event  -- it returned `p`, 0 for NULL
  free : (kind : Kind) (p : ℕ) → Event
  map : (addr size : ℕ) → Event  -- `map_kernel_range_noflush`
  unmap : (addr size : ℕ) → Event  -- `unmap_kernel_range`
  flush : (start end : ℕ) → Event  -- `flush_cache_vmap`
  set_ro : (addr pages : ℕ) → Event  -- `set_memory_ro`
  set_rw : (addr pages : ℕ) → Event  -- `set_memory_rw`
  lock : Event  -- `mutex_lock` of the registry
  unlock : Event  -- `mutex_unlock` of the registry
  released : (private_data : ℕ) → Event  -- a resolver instance's `release`

-- Kernel memory, byte by byte, and the calls, the last one first.
pub record World : Type 0 where
  pub ram : Ram
  pub log : List Event

-- `struct import_request`, whose name is a text, and `struct table_entry_request`.
pub record ImportRequest : Type 0 where
  pub name : String
  pub param_count : ℕ

pub record TableEntryRequest : Type 0 where
  pub offset : ℕ
  pub sig_id : ℕ

-- The kernel's part. A result may depend on all that happened.
pub record Kernel : Type 0 where
  -- The address allocated, 0 on failure.
  pub allocate : World → Kind → (size : ℕ) → ℕ
  -- The field `addr` of a `struct vm_struct`.
  pub area_addr : (area : ℕ) → ℕ
  -- What `map_kernel_range_noflush` returns.
  pub map_range : World → (addr size : ℕ) → ℕ
  -- The bytes that `copy_from_user` and `copy_to_user` leave uncopied, and the memory afterwards.
  pub from_user : World → (dst src len : ℕ) → ℕ × Ram
  pub to_user : World → (dst src len : ℕ) → ℕ
  -- The structures at a user address, `none` if the copy faults.
  pub import_request : World → (src : ℕ) → Option ImportRequest
  pub table_entry_request : World → (src : ℕ) → Option TableEntryRequest

-- `copy_from_user` changes no byte outside the buffer that it is given.
pub record IsLawful (os : Kernel) : Type 0 where
  pub within :
      (w : World) (dst src len a : ℕ)
      → (a < dst) ⊎ (dst + len ≤ a)
      → (os.from_user w dst src len).1 a ≡ w.ram a

module _ (os : Kernel) where
  abbrev pub call_alloc : Kind → (size : ℕ) → World → ℕ × World
  call_alloc kind size w =
      let p = os.allocate w kind size in (p, record w { log = Event.alloc kind p ∷ w.log })

  abbrev pub call_map : (addr size : ℕ) → World → ℕ × World
  call_map addr size w = (os.map_range w addr size, record w { log = Event.map addr size ∷ w.log })

  abbrev pub call_from_user : (dst src len : ℕ) → World → ℕ × World
  call_from_user dst src len w = let r = os.from_user w dst src len in (r.0, record w { ram = r.1 })

-- A call without result.
abbrev pub emit : Event → World → World
emit e w = record w { log = e ∷ w.log }

-- ===== src/Vm/Kallsyms.antt =====
-- vm.c: the functions of the kernel that vm.c looks up by name, and the call of one pair of them.
use kernel_wasm.Base.{ℕ, ◌≢◌, List, [], ◌∷◌, ◌==◌, ◌||◌, if◌then◌else◌, neg, is_neg}
use kernel_wasm.Kernel.{einval}

-- The static variables of vm.c, 0 for NULL.
pub record Statics : Type 0 where
  pub set_memory_ro : ℕ
  pub set_memory_rw : ℕ
  pub map_kernel_range_noflush : ℕ
  pub put_files_struct : ℕ
  pub unshare_files : ℕ

-- `vm_init`; the argument is what `kallsyms_lookup_name` answers for each name.
unfoldable pub vm_init : (found : Statics) → ℕ × Statics
vm_init found =
    if found.set_memory_ro == 0
      || found.set_memory_rw == 0
      || found.map_kernel_range_noflush == 0
      || found.unshare_files == 0
      || found.put_files_struct == 0
    then (neg einval, found)
    else (0, found)

-- None of them is NULL.
abbrev pub IsFound : Statics → Type 0
IsFound v =
    (v.set_memory_ro ≢ 0)
    × (v.set_memory_rw ≢ 0)
    × (v.map_kernel_range_noflush ≢ 0)
    × (v.put_files_struct ≢ 0)
    × (v.unshare_files ≢ 0)

-- What `_unshare_files` returns, and the table that it displaces, 0 for NULL.
pub record Unshared : Type 0 where
  pub ret : ℕ
  pub displaced : ℕ

-- `vm_unshare_executor_files`, with the tables given to `_put_files_struct`.
unfoldable pub vm_unshare_executor_files : Unshared → ℕ × List ℕ
vm_unshare_executor_files u =
    if is_neg u.ret then (u.ret, []) else (0, if u.displaced == 0 then [] else u.displaced ∷ [])

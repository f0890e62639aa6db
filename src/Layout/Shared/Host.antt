-- ===== src/Layout/Shared/Host.antt =====
-- request.h and vm.h: the members of the structures that the user hands over, and of those that compiled
-- code reads.
use kernel_wasm.Base.{[], ◌∷◌}
use kernel_wasm.Layout.{CType, Members, members, scalar, array, Scalar}

abbrev pointer : CType
pointer = scalar Scalar.u64

abbrev pub import_request : Members
import_request =
    members (("name", array 64 (scalar Scalar.u8)) ∷ ("param_count", scalar Scalar.u32) ∷ [])

abbrev pub table_entry_request : Members
table_entry_request = members (("offset", scalar Scalar.u64) ∷ ("sig_id", scalar Scalar.u32) ∷ [])

abbrev pub load_code_request : Members
load_code_request = members (
    ("code", pointer)
    ∷ ("code_len", scalar Scalar.u32)
    ∷ ("memory", pointer)
    ∷ ("memory_len", scalar Scalar.u32)
    ∷ ("memory_max", scalar Scalar.u32)
    ∷ ("table", pointer)
    ∷ ("table_count", scalar Scalar.u32)
    ∷ ("globals", pointer)
    ∷ ("global_count", scalar Scalar.u32)
    ∷ ("imported_funcs", pointer)
    ∷ ("imported_func_count", scalar Scalar.u32)
    ∷ ("dynamic_sigindices", pointer)
    ∷ ("dynamic_sigindice_count", scalar Scalar.u32)
    ∷ [])

abbrev pub run_code_result : Members
run_code_result = members (("success", scalar Scalar.u32) ∷ ("retval", scalar Scalar.u64) ∷ [])

abbrev pub run_code_request : Members
run_code_request = members (
    ("entry_offset", scalar Scalar.u32)
    ∷ ("params", pointer)
    ∷ ("param_count", scalar Scalar.u32)
    ∷ ("result", pointer)
    ∷ [])

abbrev pub read_memory_request : Members
read_memory_request =
    members (("out", pointer) ∷ ("offset", scalar Scalar.u32) ∷ ("len", scalar Scalar.u32) ∷ [])

abbrev pub write_memory_request : Members
write_memory_request =
    members (("in", pointer) ∷ ("offset", scalar Scalar.u32) ∷ ("len", scalar Scalar.u32) ∷ [])

abbrev pub vmctx : Members
vmctx = members (
    ("_memories", pointer)
    ∷ ("tables", pointer)
    ∷ ("globals", pointer)
    ∷ ("_imported_memories", pointer)
    ∷ ("imported_tables", pointer)
    ∷ ("imported_globals", pointer)
    ∷ ("imported_funcs", pointer)
    ∷ ("dynamic_sigindices", pointer)
    ∷ ("intrinsics", pointer)
    ∷ ("stack_lower_bound", pointer)
    ∷ ("memory_base", pointer)
    ∷ ("memory_bound", scalar Scalar.u64)
    ∷ [])

abbrev pub vm_intrinsics : Members
vm_intrinsics = members (("memory_grow", pointer) ∷ ("memory_size", pointer) ∷ [])

abbrev pub local_memory : Members
local_memory = members (("base", pointer) ∷ ("bound", scalar Scalar.u64) ∷ ("unused", pointer) ∷ [])

abbrev pub anyfunc : Members
anyfunc = members (("func", pointer) ∷ ("ctx", pointer) ∷ ("sig_id", scalar Scalar.u32) ∷ [])

abbrev pub local_table : Members
local_table = members (("base", pointer) ∷ ("count", scalar Scalar.u64) ∷ ("unused", pointer) ∷ [])

abbrev pub imported_func : Members
imported_func = members (("func", pointer) ∷ ("ctx_indirect", pointer) ∷ [])

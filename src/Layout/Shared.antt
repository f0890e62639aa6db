-- ===== src/Layout/Shared.antt =====
-- The structures that a module, the user and the host share.
pub mod Typedefs
pub mod Wasi
pub mod Host
use kernel_wasm.Layout.{CType, struct, Members}
use kernel_wasm.Layout.Shared.Host
use kernel_wasm.Layout.Shared.Wasi

-- Those of wasi/def.h, of request.h and of vm.h.
pub data Shared : Type 0 where
  dirent event prestat fdstat filestat ciovec iovec subscription : Shared
  import_request table_entry_request load_code_request run_code_result run_code_request
        read_memory_request write_memory_request :
      Shared
  vmctx vm_intrinsics local_memory anyfunc local_table imported_func : Shared

unfoldable pub members_of : Shared → Members
members_of Shared.dirent = Wasi.dirent
members_of Shared.event = Wasi.event
members_of Shared.prestat = Wasi.prestat
members_of Shared.fdstat = Wasi.fdstat
members_of Shared.filestat = Wasi.filestat
members_of Shared.ciovec = Wasi.ciovec
members_of Shared.iovec = Wasi.iovec
members_of Shared.subscription = Wasi.subscription
members_of Shared.import_request = Host.import_request
members_of Shared.table_entry_request = Host.table_entry_request
members_of Shared.load_code_request = Host.load_code_request
members_of Shared.run_code_result = Host.run_code_result
members_of Shared.run_code_request = Host.run_code_request
members_of Shared.read_memory_request = Host.read_memory_request
members_of Shared.write_memory_request = Host.write_memory_request
members_of Shared.vmctx = Host.vmctx
members_of Shared.vm_intrinsics = Host.vm_intrinsics
members_of Shared.local_memory = Host.local_memory
members_of Shared.anyfunc = Host.anyfunc
members_of Shared.local_table = Host.local_table
members_of Shared.imported_func = Host.imported_func

abbrev pub ctype : Shared → CType
ctype s = struct (members_of s)

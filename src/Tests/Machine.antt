-- ===== src/Tests/Machine.antt =====
-- A concrete kernel, in which every call succeeds, and a memory.
use kernel_wasm.Base.{◌+◌, ◌*◌, ◌/◌, ◌&&◌, ltb, leb, none, [], if◌then◌else◌, Ram, length, arith}
use kernel_wasm.Kernel.{Kernel, World, IsLawful}
use kernel_wasm.Vm.Context.{Vmctx}
use kernel_wasm.Vm.Slice.{IsPlaced}

-- A fresh address for each allocation, and sevens from every user.
abbrev pub machine : Kernel
machine = record {
  allocate = λ w kind size. 1048576 * (1 + length w.log);
  area_addr = λ area. area + 4096;
  map_range = λ w addr size. size / 4096;
  from_user = λ w dst src len. (0, λ a. if leb dst a && ltb a (dst + len) then 7 else w.ram a);
  to_user = λ w dst src len. 0;
  import_request = λ w src. none;
  table_entry_request = λ w src. none;
}

pub machine-IsLawful : IsLawful machine
machine-IsLawful = record { within = λ w dst src len a apart. ground arith }

abbrev pub zeroes : Ram
zeroes a = 0

abbrev pub booted : World
booted = record { ram = zeroes; log = [] }

-- One WebAssembly page at 1048576.
abbrev pub one_page : Vmctx
one_page = record { memory_base = 1048576; memory_bound = 65536 }

pub one_page-IsPlaced : IsPlaced one_page
one_page-IsPlaced = omega arith

-- ===== src/Lib.antt =====
-- kernel-wasm runs WebAssembly modules inside the Linux kernel. A process opens the device file, loads
-- compiled code with its memory, globals, table and imports, and lets it run; the code reaches the kernel
-- only through the host functions that extensions register.
--
-- The parts and their modules:
--
-- - vm.h, vm.c: the execution engine. Vm/Context is `vmctx_get_memory_slice`, the one gate from a
--   module's offsets to kernel addresses, and Vm/Slice what it promises. Vm/Engine has the structures and
--   limits; Vm/Init the body of `init_execution_engine` in its stages, which Vm/Setup's monad runs up to
--   the first `goto fail`; Vm/Load the whole function with the cleanup, and `destroy_execution_engine`;
--   Vm/Pages the page loops; Vm/Grow the intrinsics `wasm_memory_grow` and `wasm_memory_size`. Vm/Ledger
--   keeps account of the allocations, Vm/Written of the memory that a load writes, in bytes and
--   (Written/Arrays) in entries of arrays, Vm/Reads of where it reads, and Vm/Triple of what the stages leave: Vm/Sized the size and the place of the memory, Vm/Linked the imports, Vm/Entered the
--   table, Vm/Stack the stack.
-- - kapi.h, kapi.c: the resolvers of imports. Kapi/Registry is the global registry under its mutex and
--   the making of an engine's instances, Kapi/Resolver their release and the resolution of one import.
--   vm.c makes the instances of an engine, resolves its imports with them, and releases them.
-- - uapi.c: Uapi/Session is the session of an open device file, with the commands that load code and
--   that read and write the memory; Uapi/Ioctl the dispatch of `wd_ioctl`, runs among its
--   commands, and Uapi/Lifetime and Ioctl/Lifetime a session from `wd_open` to `wd_release`; Ioctl/Growth
--   counts what its runs lose.
-- - uapi.c, the running of code: Uapi/Run/Stdio is `handle_wasm_run_code` up to the first semaphore,
--   Uapi/Run/State and Uapi/Run/Threads the rest of it with `task_finalizer` and `code_runner`, three
--   threads that interleave, as a step relation over what they share; Threads/Invariant has what holds in
--   every state that is reached. Uapi/Run/Runner is `code_runner` as the code of one thread.
-- - coroutine.h: Coroutine/Processor is a machine for the assembly, Coroutine `co_switch` and
--   `start_coroutine` on it.
-- - wasi/ext.c with wasi/def.h: Wasi/Calls and Wasi/Io are the host functions, Wasi/Table `do_resolve` and
--   the entry of what it hands out. `__wasi_fd_write` and `__wasi_fd_read` are one function over the
--   direction.
-- - networking/ext.c: Net/Calls and Net/Table in the same way.
-- - wasi/ext.c and networking/ext.c as modules: Extensions is their `get_instance`, `init_module` and
--   `cleanup_module`; Extensions/Link joins them with kapi.c, Extensions/Loaded with vm.c as well, and
--   Extensions/Install is their coming and going.
-- - uapi.c and ext.c: Uapi/Device is the registration of the device file and the init and exit functions of
--   the executor. Vm/Kallsyms is `vm_init`, which looks up what vm.c calls through pointers.
--   Vm/Exec is `ee_make_code_nx` and `ee_make_code_x`, by pages, and the preemption callbacks.
-- - request.h: the structures stand with their users, in Kernel, Vm/Engine and Uapi/Session.
-- - wasi/def.h: Wasi/Errno has the error codes, and Errno/Returned which of them each host function
--   returns. Layout is how C lays out a structure; Layout/Shared has the structures of wasi/def.h, request.h and
--   vm.h, and Layout/Asserted the `_Static_assert` lines. Vm/Reads and Written/Arrays take the sizes of array
--   elements from it.
-- - Compiled code at work: Execution joins vm.c, wasi/ext.c and networking/ext.c. Its steps are the stores
--   of the code to its own memory, stack and globals, the calls of its imports, each the entry of the host
--   function that stands at the address the import was linked to, and `wasm_memory_grow`. Execution/Whole
--   joins the load, such runs and the commands of `wd_ioctl`.
--
-- How the code is modelled. Pointers are addresses, numbers with 0 for NULL, and kernel memory is a function
-- from addresses to bytes. A C integer is its bit pattern; an `unsigned long` or `uint32_t` wraps at 2 ^ 64
-- and 2 ^ 32 wherever the source computes with it, and a negative errno is the pattern of an `int`. State is
-- passed explicitly: an operation takes a world and returns its result and the next world. The world holds
-- the memory and a log of the calls into the kernel, last first, so that a theorem can count allocations,
-- references and lock operations. The kernel itself is a record of functions over the world, a parameter
-- (Kernel, Wasi/Host, Net/Host): allocators may fail at will, and results may depend on all that happened.
-- The bytes are those that copies, host functions and compiled code write. What C declares stands beside
-- them as fields: the engine and the session, the engine's arrays (the table, the imported functions, the
-- pointers to the globals, the page array, the resolver instances) as functions of the index, with the
-- address of each, and the position of an open file; that an array is stored within its room is a theorem,
-- not a matter of bytes. A resolver's `get_instance` returns no world: what it allocates for itself is in no
-- account.
-- Where a theorem needs that a call keeps to the buffer it was given, that is the hypothesis `IsLawful`.
-- Resolvers' callbacks are a parameter too. Sizes of structures are those of x86-64. Loops recur on the
-- rounds that are left, a number that the source computes before the loop, so no fuel is needed; only the
-- loop of `code_runner` has fuel, of which two rounds are enough.
--
-- The threads of a run: a step is one access to what they share, and the handler's last
-- accesses, after its last wait or when `kthread_create` has failed, are taken together; a semaphore counts, and a signal may
-- interrupt the handler's last wait at any time. For these threads compiled code is any value that it
-- returns, or the end of its thread. What the runner calls to ready its thread, `kernel_fpu_begin` and the
-- like, is recorded. A failed `kthread_run` or `kthread_create`, a failed copy to the user and a failed
-- `get_unused_fd_flags` are steps like the others; a copy of the result that stops halfway counts as one that
-- tells nothing.
--
-- Not modelled: what compiled code computes; that its own stores keep to its memory, its stack and its
-- globals is taken from its compiler, which is not in the repository. What the kernel does with the FPU and
-- with preemption; `printk`; the constants of wasi/def.h that no code uses. In the threads of a run the
-- executability of the code is one flag. In assembly, words that overlap in memory.
-- Between the threads of different sessions nothing interleaves: vm.h assumes one user of a session at a
-- time, and the registry has its mutex.
pub mod Base
pub mod Kernel
pub mod Kapi
pub mod Vm
pub mod Uapi
pub mod Wasi
pub mod Net
pub mod Execution
pub mod Extensions
pub mod Layout
pub mod Coroutine
pub mod Tests

-- ===== src/Layout/Asserted.antt =====
-- wasi/def.h: its `_Static_assert` lines.
use Prim.Native.String.{String}
use kernel_wasm.Base.{ℕ, ◌≡◌, refl, Option, none, some, List, [], ◌∷◌}
use kernel_wasm.Layout.{CType, align_of, size_of, locate, width, offset_of}
use kernel_wasm.Layout.Shared.{Shared, members_of, ctype}

-- The members whose offsets are asserted, with these.
unfoldable pub asserted_offsets : Shared → List (List String × ℕ)
asserted_offsets Shared.dirent =
    (("d_next" ∷ []), 0)
    ∷ (("d_ino" ∷ []), 8)
    ∷ (("d_namlen" ∷ []), 16)
    ∷ (("d_type" ∷ []), 20)
    ∷ []
asserted_offsets Shared.event =
    (("userdata" ∷ []), 0)
    ∷ (("error" ∷ []), 8)
    ∷ (("type" ∷ []), 10)
    ∷ (("u" ∷ "fd_readwrite" ∷ "nbytes" ∷ []), 16)
    ∷ (("u" ∷ "fd_readwrite" ∷ "flags" ∷ []), 24)
    ∷ []
asserted_offsets Shared.prestat =
    (("pr_type" ∷ []), 0) ∷ (("u" ∷ "dir" ∷ "pr_name_len" ∷ []), 4) ∷ []
asserted_offsets Shared.fdstat =
    (("fs_filetype" ∷ []), 0)
    ∷ (("fs_flags" ∷ []), 2)
    ∷ (("fs_rights_base" ∷ []), 8)
    ∷ (("fs_rights_inheriting" ∷ []), 16)
    ∷ []
asserted_offsets Shared.filestat =
    (("st_dev" ∷ []), 0)
    ∷ (("st_ino" ∷ []), 8)
    ∷ (("st_filetype" ∷ []), 16)
    ∷ (("st_nlink" ∷ []), 20)
    ∷ (("st_size" ∷ []), 24)
    ∷ (("st_atim" ∷ []), 32)
    ∷ (("st_mtim" ∷ []), 40)
    ∷ (("st_ctim" ∷ []), 48)
    ∷ []
asserted_offsets Shared.ciovec = (("buf" ∷ []), 0) ∷ (("buf_len" ∷ []), 4) ∷ []
asserted_offsets Shared.iovec = (("buf" ∷ []), 0) ∷ (("buf_len" ∷ []), 4) ∷ []
asserted_offsets Shared.subscription =
    (("userdata" ∷ []), 0)
    ∷ (("type" ∷ []), 8)
    ∷ (("u" ∷ "clock" ∷ "identifier" ∷ []), 16)
    ∷ (("u" ∷ "clock" ∷ "clock_id" ∷ []), 24)
    ∷ (("u" ∷ "clock" ∷ "timeout" ∷ []), 32)
    ∷ (("u" ∷ "clock" ∷ "precision" ∷ []), 40)
    ∷ (("u" ∷ "clock" ∷ "flags" ∷ []), 48)
    ∷ (("u" ∷ "fd_readwrite" ∷ "fd" ∷ []), 16)
    ∷ []
asserted_offsets _ = []

-- The size, and the alignment, that are asserted.
unfoldable pub asserted_size : Shared → Option (ℕ × ℕ)
asserted_size Shared.dirent = some (24, 8)
asserted_size Shared.event = some (32, 8)
asserted_size Shared.prestat = some (8, 4)
asserted_size Shared.fdstat = some (24, 8)
asserted_size Shared.filestat = some (56, 8)
asserted_size Shared.ciovec = some (8, 4)
asserted_size Shared.iovec = some (8, 4)
asserted_size Shared.subscription = some (56, 8)
asserted_size _ = none

abbrev OffsetsHold : CType → List (List String × ℕ) → Type 0
OffsetsHold t [] = Unit {0}
OffsetsHold t ((path, offset) ∷ rest) = (offset_of t path ≡ some offset) × OffsetsHold t rest

abbrev SizeHolds : CType → Option (ℕ × ℕ) → Type 0
SizeHolds t none = Unit {0}
SizeHolds t (some (size, align)) = (size_of t ≡ size) × (align_of t ≡ align)

abbrev pub AssertionsHold : Shared → Type 0
AssertionsHold s =
    OffsetsHold (ctype s) (asserted_offsets s) × SizeHolds (ctype s) (asserted_size s)

-- Every offset, size and alignment that wasi/def.h asserts of its structures is the one that the rules
-- of C on x86-64 give.
pub assertions_hold : (s : Shared) → AssertionsHold s
unfolding members_of asserted_offsets asserted_size align_of size_of locate width
assertions_hold Shared.dirent = ((refl, (refl, (refl, (refl, tt)))), (refl, refl))
assertions_hold Shared.event = ((refl, (refl, (refl, (refl, (refl, tt))))), (refl, refl))
assertions_hold Shared.prestat = ((refl, (refl, tt)), (refl, refl))
assertions_hold Shared.fdstat = ((refl, (refl, (refl, (refl, tt)))), (refl, refl))
assertions_hold Shared.filestat =
    ((refl, (refl, (refl, (refl, (refl, (refl, (refl, (refl, tt)))))))), (refl, refl))
assertions_hold Shared.ciovec = ((refl, (refl, tt)), (refl, refl))
assertions_hold Shared.iovec = ((refl, (refl, tt)), (refl, refl))
assertions_hold Shared.subscription =
    ((refl, (refl, (refl, (refl, (refl, (refl, (refl, (refl, tt)))))))), (refl, refl))
assertions_hold Shared.import_request = (tt, tt)
assertions_hold Shared.table_entry_request = (tt, tt)
assertions_hold Shared.load_code_request = (tt, tt)
assertions_hold Shared.run_code_result = (tt, tt)
assertions_hold Shared.run_code_request = (tt, tt)
assertions_hold Shared.read_memory_request = (tt, tt)
assertions_hold Shared.write_memory_request = (tt, tt)
assertions_hold Shared.vmctx = (tt, tt)
assertions_hold Shared.vm_intrinsics = (tt, tt)
assertions_hold Shared.local_memory = (tt, tt)
assertions_hold Shared.anyfunc = (tt, tt)
assertions_hold Shared.local_table = (tt, tt)
assertions_hold Shared.imported_func = (tt, tt)

-- ===== src/Layout/Shared/Typedefs.antt =====
-- wasi/def.h: the integer types that its structures are made of.
use kernel_wasm.Layout.{CType, scalar, Scalar}

abbrev pub wasm_pointer_t : CType
wasm_pointer_t = scalar Scalar.u32

abbrev pub clockid_t : CType
clockid_t = scalar Scalar.u32

abbrev pub device_t : CType
device_t = scalar Scalar.u64

abbrev pub dircookie_t : CType
dircookie_t = scalar Scalar.u64

abbrev pub errno_t : CType
errno_t = scalar Scalar.u16

abbrev pub eventrwflags_t : CType
eventrwflags_t = scalar Scalar.u16

abbrev pub eventtype_t : CType
eventtype_t = scalar Scalar.u8

abbrev pub fd_t : CType
fd_t = scalar Scalar.u32

abbrev pub fdflags_t : CType
fdflags_t = scalar Scalar.u16

abbrev pub filesize_t : CType
filesize_t = scalar Scalar.u64

abbrev pub filetype_t : CType
filetype_t = scalar Scalar.u8

abbrev pub inode_t : CType
inode_t = scalar Scalar.u64

abbrev pub linkcount_t : CType
linkcount_t = scalar Scalar.u32

abbrev pub rights_t : CType
rights_t = scalar Scalar.u64

abbrev pub subclockflags_t : CType
subclockflags_t = scalar Scalar.u16

abbrev pub timestamp_t : CType
timestamp_t = scalar Scalar.u64

abbrev pub userdata_t : CType
userdata_t = scalar Scalar.u64

abbrev pub preopentype_t : CType
preopentype_t = scalar Scalar.u8

-- ===== src/Layout/Shared/Wasi.antt =====
-- wasi/def.h: the members of its structures, in order.
use kernel_wasm.Base.{[], ◌∷◌}
use kernel_wasm.Layout.{Members, members, scalar, struct, union, Scalar}
use kernel_wasm.Layout.Shared.Typedefs.{
  clockid_t, device_t, dircookie_t, errno_t, eventrwflags_t, eventtype_t, fd_t, fdflags_t,
  filesize_t, filetype_t, inode_t, linkcount_t, preopentype_t, rights_t, subclockflags_t,
  timestamp_t, userdata_t, wasm_pointer_t,
}

abbrev pub dirent : Members
dirent = members (
    ("d_next", dircookie_t)
    ∷ ("d_ino", inode_t)
    ∷ ("d_namlen", scalar Scalar.u32)
    ∷ ("d_type", filetype_t)
    ∷ [])

abbrev pub event : Members
event = members (
    ("userdata", userdata_t)
    ∷ ("error", errno_t)
    ∷ ("type", eventtype_t)
    ∷ (
      "u",
      union (
          members (
            (
              "fd_readwrite",
              struct (members (("nbytes", filesize_t) ∷ ("flags", eventrwflags_t) ∷ [])),
            )
            ∷ [])),
    )
    ∷ [])

abbrev pub prestat : Members
prestat = members (
    ("pr_type", preopentype_t)
    ∷ (
      "u",
      union (members (("dir", struct (members (("pr_name_len", scalar Scalar.u32) ∷ []))) ∷ [])),
    )
    ∷ [])

abbrev pub fdstat : Members
fdstat = members (
    ("fs_filetype", filetype_t)
    ∷ ("fs_flags", fdflags_t)
    ∷ ("fs_rights_base", rights_t)
    ∷ ("fs_rights_inheriting", rights_t)
    ∷ [])

abbrev pub filestat : Members
filestat = members (
    ("st_dev", device_t)
    ∷ ("st_ino", inode_t)
    ∷ ("st_filetype", filetype_t)
    ∷ ("st_nlink", linkcount_t)
    ∷ ("st_size", filesize_t)
    ∷ ("st_atim", timestamp_t)
    ∷ ("st_mtim", timestamp_t)
    ∷ ("st_ctim", timestamp_t)
    ∷ [])

abbrev pub ciovec : Members
ciovec = members (("buf", wasm_pointer_t) ∷ ("buf_len", scalar Scalar.u32) ∷ [])

abbrev pub iovec : Members
iovec = members (("buf", wasm_pointer_t) ∷ ("buf_len", scalar Scalar.u32) ∷ [])

abbrev pub subscription : Members
subscription = members (
    ("userdata", userdata_t)
    ∷ ("type", eventtype_t)
    ∷ (
      "u",
      union (
          members (
            (
              "clock",
              struct (
                  members (
                    ("identifier", userdata_t)
                    ∷ ("clock_id", clockid_t)
                    ∷ ("timeout", timestamp_t)
                    ∷ ("precision", timestamp_t)
                    ∷ ("flags", subclockflags_t)
                    ∷ [])),
            )
            ∷ ("fd_readwrite", struct (members (("fd", fd_t) ∷ [])))
            ∷ [])),
    )
    ∷ [])

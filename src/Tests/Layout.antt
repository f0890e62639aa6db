-- ===== src/Tests/Layout.antt =====
-- The layout of a structure, computed.
use kernel_wasm.Base.{◌≡◌, refl, some, [], ◌∷◌}
use kernel_wasm.Layout.{scalar, Scalar, align_of, size_of, locate, width}
use kernel_wasm.Layout.Shared.{Shared, members_of, ctype}

-- `param_count` of a request for an import, behind its name.
counted : locate (ctype Shared.import_request) ("param_count" ∷ []) ≡ some (64, scalar Scalar.u32)
unfolding members_of locate size_of align_of width
counted = refl

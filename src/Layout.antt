-- ===== src/Layout.antt =====
-- How C lays out a structure on x86-64 (System V): every scalar is aligned to its size, a structure and
-- a union to their most aligned member. The structures are those that the module and its host share.
pub mod Shared
pub mod Asserted
use Prim.Native.String.{String}
use text.Mathlib.Text.{◌==◌ as str_eq}
use kernel_wasm.Base.{ℕ, ◌+◌, ◌-◌, ◌*◌, ◌/◌, Option, none, some, List, [], ◌∷◌, ltb, if◌then◌else◌}

-- The scalars, by their size. A pointer and an `unsigned long` are a `u64`.
pub data Scalar : Type 0 where
  u8 u16 u32 u64 : Scalar

unfoldable pub width : Scalar → ℕ
width Scalar.u8 = 1
width Scalar.u16 = 2
width Scalar.u32 = 4
width Scalar.u64 = 8

-- Types, and the members of a `struct` and of a `union`, each with its name.
mutual
  pub data CType : Type 0 where
    scalar : Scalar → CType
    array : (length : ℕ) → CType → CType
    struct : Members → CType
    union : Members → CType

  pub data Members : Type 0 where
    end : Members
    member : (name : String) → CType → Members → Members

-- The members of a list, in order.
abbrev pub members : List (String × CType) → Members
members [] = end
members ((name, t) ∷ rest) = member name t (members rest)

abbrev pub larger : ℕ → ℕ → ℕ
larger a b = if ltb a b then b else a

-- The least multiple of `a` from `n` on.
abbrev pub round_up : (n a : ℕ) → ℕ
round_up n a = (n + (a - 1)) / a * a

-- `_Alignof`.
unfoldable mutual
  pub align_of : CType → ℕ
  align_of (scalar s) = width s
  align_of (array n t) = align_of t
  align_of (struct ms) = align_all ms
  align_of (union ms) = align_all ms

  pub align_all : Members → ℕ
  align_all end = 1
  align_all (member name t ms) = larger (align_of t) (align_all ms)

-- `sizeof`; where the last of the members ends, if the first can start at `at`; and the size of the
-- widest member.
unfoldable mutual
  pub size_of : CType → ℕ
  size_of (scalar s) = width s
  size_of (array n t) = n * size_of t
  size_of (struct ms) = round_up (extent ms 0) (align_all ms)
  size_of (union ms) = round_up (widest ms) (align_all ms)

  pub extent : Members → (at : ℕ) → ℕ
  extent end at = at
  extent (member name t ms) at = extent ms (round_up at (align_of t) + size_of t)

  pub widest : Members → ℕ
  widest end = 0
  widest (member name t ms) = larger (size_of t) (widest ms)

-- What is found from `n` bytes on is that much further on.
abbrev pub further : ℕ → Option (ℕ × CType) → Option (ℕ × CType)
further n none = none
further n (some (offset, t)) = some (n + offset, t)

-- `offsetof` with the type there, for a path of member names.
unfoldable mutual
  pub locate : CType → List String → Option (ℕ × CType)
  locate t [] = some (0, t)
  locate (scalar s) (name ∷ path) = none
  locate (array n t) (name ∷ path) = none
  locate (struct ms) (name ∷ path) = locate_in ms 0 name path
  locate (union ms) (name ∷ path) = locate_any ms name path

  pub locate_in : Members → (at : ℕ) → String → List String → Option (ℕ × CType)
  locate_in end at name path = none
  locate_in (member m t ms) at name path =
      let here = round_up at (align_of t) in
      let found = further here (locate t path) in
      let rest = locate_in ms (here + size_of t) name path in if str_eq m name then found else rest

  pub locate_any : Members → String → List String → Option (ℕ × CType)
  locate_any end name path = none
  locate_any (member m t ms) name path =
      let found = locate t path in
      let rest = locate_any ms name path in if str_eq m name then found else rest

-- `offsetof` alone.
abbrev pub offset_of : CType → List String → Option ℕ
offset_of t path = elim (locate t path) [ none ↦ none | some (offset, u) ↦ some offset ]

-- ===== src/Kapi/Info.antt =====
-- kapi.h: `struct import_info`, over the type of host functions that `fn` points to.
use Prim.Native.String.{String}
use text.Mathlib.Text.{◌==◌ as str_eq}
use kernel_wasm.Base.{ℕ, Option, if◌then◌else◌, neg}

-- `fn` is `none` for NULL.
pub record ImportInfo (F : Type 0) : Type 0 where
  pub fn : Option F
  pub param_count : ℕ

-- `resolve`, on the `info_out` that the caller passes: the error, 0 on success, and the result.
abbrev pub Resolve : Type 0 → Type 0
Resolve F = ImportInfo F → ℕ × ImportInfo F

-- `out->fn = fn; out->param_count = n; return 0;`.
abbrev pub resolved : {F : Type 0} → F → ℕ → Resolve F
resolved fn n out = (0, record { fn = Option.some fn; param_count = n })

-- `return -EINVAL;`, which leaves `out` as it is.
abbrev pub refused : {F : Type 0} → Resolve F
refused out = (neg 22, out)

-- `if(strcmp(name, text) == 0) { hit } else { rest }`.
unfoldable pub on_name : {F : Type 0} → (name text : String) → (hit rest : Resolve F) → Resolve F
on_name name text hit rest = if str_eq name text then hit else rest

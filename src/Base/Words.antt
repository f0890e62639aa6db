-- ===== src/Base/Words.antt =====
-- Machine integers as bit patterns: a w-bit integer is a number below 2 ^ w, a negative `int` the
-- pattern of its two's complement. Multi-byte accesses are little-endian, as on x86-64.
use Prim.Native.Nat.{ℕ, ◌+◌, ◌-◌, ◌*◌, ◌/◌, ◌%◌, ◌^◌}
use mathlib.Core.Bool.{Bool}
use kernel_wasm.Base.Tests.{leb, ◌==◌, if◌then◌else◌}

-- The conversion to `uint32_t`, and to `int` as a pattern.
abbrev pub u32 : ℕ → ℕ
u32 n = n % 2 ^ 32

-- The conversion to `unsigned long`.
abbrev pub u64 : ℕ → ℕ
u64 n = n % 2 ^ 64

-- `-n` as an `int`, for an errno value `n`.
abbrev pub neg : ℕ → ℕ
neg n = 2 ^ 32 - n

-- `x < 0` for an `int`.
abbrev pub is_neg : ℕ → Bool
is_neg x = leb (2 ^ 31) x

-- The byte at each kernel address.
abbrev pub Ram : Type 0
Ram = ℕ → ℕ

abbrev pub put_byte : Ram → ℕ → ℕ → Ram
put_byte m p v a = if a == p then v % 256 else m a

-- `*(uint32_t *) p = v`.
unfoldable pub put_word : Ram → ℕ → ℕ → Ram
put_word m p v =
    put_byte (put_byte (put_byte (put_byte m p v) (p + 1) (v / 256)) (p + 2) (v / 65536)) (p + 3)
      (v / 16777216)

-- `*(uint32_t *) p`.
unfoldable pub get_word : Ram → ℕ → ℕ
get_word m p =
    m p % 256 + 256 * (m (p + 1) % 256) + 65536 * (m (p + 2) % 256) + 16777216 * (m (p + 3) % 256)

-- ===== src/Prelude/Words.antt =====
-- Machine integers. Whether an overflow panics or wraps depends on how the crate is built:
-- `debug` is `cargo run` and `cargo test`, `release` is `cargo build --release`.
use ddd_samples.Prelude.{
  ℕ, ◌+◌, ◌-◌, ◌%◌, ◌^◌, ◌<◌, ◌≡◌, Bool, true, Option, none, some, arith, ltb, if◌then◌else◌,
}
use ddd_samples.Prelude.Int.{ℤ, pos, negsuc, ◌+ℤ◌, ◌*ℤ◌}

pub data Profile : Type 0 where
  debug release : Profile

-- The wrapped value where overflow checks are off, a panic (`none`) where they are on.
abbrev pub overflow {ℓ} : {A : Type ℓ} → Profile → A → Option A
overflow debug _ = none
overflow release a = some a

abbrev pub u32_mod : ℕ
u32_mod = 2 ^ 32

abbrev pub i64_half : ℕ
i64_half = 2 ^ 63

abbrev pub IsU32 : ℕ → Type 0
IsU32 n = n < u32_mod

-- `a += b` on `u32`.
abbrev pub add_u32 : Profile → ℕ → ℕ → Option ℕ
add_u32 p a b = if ltb (a + b) u32_mod then some (a + b) else overflow p ((a + b) % u32_mod)

-- `a -= b` on `u32`; the modulus goes first, since `-` stops at 0.
abbrev pub sub_u32 : Profile → ℕ → ℕ → Option ℕ
sub_u32 p a b = if ltb a b then overflow p ((a + u32_mod - b) % u32_mod) else some (a - b)

abbrev pub in_i64 : ℤ → Bool
in_i64 (pos n) = ltb n i64_half
in_i64 (negsuc n) = ltb n i64_half

-- The 64 bits of an integer, and the integer that 64 bits stand for.
abbrev pub to_bits : ℤ → ℕ
to_bits (pos n) = n % 2 ^ 64
to_bits (negsuc n) = 2 ^ 64 - 1 - n % 2 ^ 64

abbrev pub of_bits : ℕ → ℤ
of_bits b = if ltb b i64_half then pos b else negsuc (2 ^ 64 - 1 - b)

abbrev pub to_i64 : Profile → ℤ → Option ℤ
to_i64 p z = if in_i64 z then some z else overflow p (of_bits (to_bits z))

-- `a + b` and `a * b` on `i64`.
abbrev pub add_i64 : Profile → ℤ → ℤ → Option ℤ
add_i64 p a b = to_i64 p (a +ℤ b)

abbrev pub mul_i64 : Profile → ℤ → ℤ → Option ℤ
mul_i64 p a b = to_i64 p (a *ℤ b)

pub add_u32_fits : (p : Profile) (a b : ℕ) → a + b < u32_mod → add_u32 p a b ≡ some (a + b)
add_u32_fits p a b h = ground arith

pub to_i64_fits : (p : Profile) (z : ℤ) → in_i64 z ≡ true → to_i64 p z ≡ some z
to_i64_fits p z h = ground arith

-- ===== src/Wire/Words.antt =====
-- 32-bit words in big-endian order.
use vextra.Base.{ℕ, ◌^◌, ◌<◌, ◌≡◌, refl, ◌++◌, arith, length, Text}
use vextra.Wire.{put_u32, get_u32}

-- A word is read back, whatever follows it.
pub get_u32-put_u32 : (x : ℕ) (s : Text) → x < 2 ^ 32 → get_u32 (put_u32 x ++ s) ≡ x
unfolding put_u32 get_u32
get_u32-put_u32 x s h = omega arith

pub length-put_u32 : (x : ℕ) → length (put_u32 x) ≡ 4
unfolding put_u32
length-put_u32 x = refl

-- ===== src/Wire/Laws.antt =====
-- What a write leaves in the buffer.
use route.Base.{ℕ, ◌+◌, ◌^◌, ◌≤◌, ◌<◌, ◌≡◌, arith}
use route.Wire.{Buffer, read32, write32, swap_short}

module _ (m : Buffer) (o w : ℕ) where
  pub read32-write32_self : w < 2 ^ 32 → read32 (write32 m o w) o ≡ w
  unfolding read32 write32
  read32-write32_self h = ground arith

  pub write32-below : (p : ℕ) → p < o → write32 m o w p ≡ m p
  unfolding write32
  write32-below p h = ground arith

  pub write32-above : (p : ℕ) → o + 4 ≤ p → write32 m o w p ≡ m p
  unfolding write32
  write32-above p h = ground arith

module _ (m : Buffer) (o w p : ℕ) where
  pub read32-write32_below : p + 4 ≤ o → read32 (write32 m o w) p ≡ read32 m p
  unfolding read32
  read32-write32_below h = ground (
    arith,
    write32-below m o w p,
    write32-below m o w (p + 1),
    write32-below m o w (p + 2),
    write32-below m o w (p + 3),
  )

  pub read32-write32_above : o + 4 ≤ p → read32 (write32 m o w) p ≡ read32 m p
  unfolding read32
  read32-write32_above h = ground (
    arith,
    write32-above m o w p,
    write32-above m o w (p + 1),
    write32-above m o w (p + 2),
    write32-above m o w (p + 3),
  )

pub swap_short_rest : (m : Buffer) (p : ℕ) → 2 ≤ p → swap_short m p ≡ m p
unfolding swap_short
swap_short_rest m p h = ground arith

pub swap_short_twice : (m : Buffer) (p : ℕ) → swap_short (swap_short m) p ≡ m p
unfolding swap_short
swap_short_twice m p = ground arith

pub read32-swap_short : (m : Buffer) (p : ℕ) → 2 ≤ p → read32 (swap_short m) p ≡ read32 m p
unfolding read32
read32-swap_short m p h = ground (
  arith,
  swap_short_rest m p,
  swap_short_rest m (p + 1),
  swap_short_rest m (p + 2),
  swap_short_rest m (p + 3),
)

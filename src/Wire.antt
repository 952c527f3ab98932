-- ===== src/Wire.antt =====
-- Packet buffers, and the 32-bit words that `htonl` and `ntohl` write and read in them.
-- A buffer is the byte at each offset. The receiver reads a header that may claim more than the
-- packet holds, so offsets past the end of the packet are bytes of the buffer too.
pub mod Laws
use route.Base.{ℕ, ◌+◌, ◌*◌, ◌/◌, ◌%◌, ◌^◌, ◌==◌, if◌then◌else◌}

abbrev pub Buffer : Type 0
Buffer = ℕ → ℕ

unfoldable pub store8 : Buffer → ℕ → ℕ → Buffer
store8 m o v p = if p == o then v else m p

-- `*(unsigned int*)(p + o) = htonl(word)`
unfoldable pub write32 : Buffer → ℕ → ℕ → Buffer
unfolding store8
write32 m o w =
    store8
      (store8 (store8 (store8 m o (w / 2 ^ 24 % 256)) (o + 1) (w / 2 ^ 16 % 256)) (o + 2)
        (w / 2 ^ 8 % 256))
      (o + 3) (w % 256)

-- `ntohl(*(unsigned int*)(p + o))`
unfoldable pub read32 : Buffer → ℕ → ℕ
read32 m o = m o * 2 ^ 24 + m (o + 1) * 2 ^ 16 + m (o + 2) * 2 ^ 8 + m (o + 3)

-- `*(unsigned short*)p = htons(*(unsigned short*)p)` on a little-endian machine: `ntohs` is the
-- same exchange.
unfoldable pub swap_short : Buffer → Buffer
unfolding store8
swap_short m = store8 (store8 m 0 (m 1)) 1 (m 0)

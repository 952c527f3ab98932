-- ===== src/Alc.antt =====
-- The FEC payload identifiers: alclib/alc_hdr.c. A function returns the buffer and the number of
-- bytes that it added at `hdrlen`.
pub mod Words
use route.Base.{ℕ, ◌+◌, ◌-◌, bit_and, bit_or, u32, ◌<<<◌}
use route.Wire.{Buffer, write32}

unfoldable pub add_alc_fpi_2_128 : Buffer → ℕ → ℕ → ℕ → Buffer × ℕ
add_alc_fpi_2_128 m hdrlen sbn es_id = (write32 (write32 m hdrlen sbn) (hdrlen + 4) es_id, 8)

unfoldable pub add_alc_fpi_129 : Buffer → ℕ → ℕ → ℕ → ℕ → Buffer × ℕ
add_alc_fpi_129 m hdrlen sbn sbl es_id =
    let word = bit_or (sbl <<< 16) (bit_and es_id 0xFFFF) in
    (write32 (write32 m hdrlen sbn) (hdrlen + 4) word, 8)

-- The source block number is not written.
unfoldable pub add_alc_fpi_0_130 : Buffer → ℕ → ℕ → ℕ → Buffer × ℕ
add_alc_fpi_0_130 m hdrlen sbn es_id = (write32 m hdrlen (bit_and es_id 0xFFFFFFFF), 4)

unfoldable pub add_alc_fpi_3 : Buffer → ℕ → ℕ → ℕ → ℕ → Buffer × ℕ
add_alc_fpi_3 m hdrlen sbn es_id finite_field =
    let word = bit_or (u32 (sbn <<< finite_field)) (bit_and es_id (1 <<< finite_field - 1)) in
    (write32 m hdrlen word, 4)

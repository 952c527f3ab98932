-- ===== src/Alc/Words.antt =====
-- The words of the payload identifiers as sums of their fields.
use route.Base.{ℕ, ◌+◌, ◌*◌, ◌%◌, ◌^◌, ◌<◌, ◌≡◌, ap, ◌∙◌, arith, bit_and, bit_or, u32, ◌<<<◌}
use route.Base.Bits.{bit_or-fields, bit_and-mask}
use route.Wire.{Buffer, read32, write32}
use route.Wire.Laws.{read32-write32_self, read32-write32_below}
use route.Alc.{add_alc_fpi_2_128, add_alc_fpi_129, add_alc_fpi_0_130, add_alc_fpi_3}

module _ (m : Buffer) (o sbn es_id : ℕ) where
  pub fpi_2_128_words :
      sbn < 2 ^ 32
      → es_id < 2 ^ 32
      → let m' = (add_alc_fpi_2_128 m o sbn es_id).0 in
        (read32 m' o ≡ sbn) × (read32 m' (o + 4) ≡ es_id)
  unfolding add_alc_fpi_2_128
  fpi_2_128_words p q = (
    read32-write32_below (write32 m o sbn) (o + 4) es_id o (omega arith)
        ∙ read32-write32_self m o sbn p,
    read32-write32_self (write32 m o sbn) (o + 4) es_id q,
  )

  pub fpi_129_words :
      (sbl : ℕ)
      → sbn < 2 ^ 32
      → sbl < 2 ^ 16
      → let m' = (add_alc_fpi_129 m o sbn sbl es_id).0 in
        (read32 m' o ≡ sbn) × (read32 m' (o + 4) ≡ sbl * 2 ^ 16 + es_id % 2 ^ 16)
  unfolding add_alc_fpi_129
  fpi_129_words sbl p q =
      let word = bit_or (sbl <<< 16) (bit_and es_id 0xFFFF) in
      let sum : word ≡ sbl * 2 ^ 16 + es_id % 2 ^ 16 =
        ap (λ (t : ℕ). bit_or (sbl <<< 16) t) (bit_and-mask 16 es_id)
        ∙ bit_or-fields 16 sbl (es_id % 2 ^ 16) (omega arith) in
      (
        read32-write32_below (write32 m o sbn) (o + 4) word o (omega arith)
            ∙ read32-write32_self m o sbn p,
        read32-write32_self (write32 m o sbn) (o + 4) word (omega arith) ∙ sum,
      )

  pub fpi_0_130_word : read32 (add_alc_fpi_0_130 m o sbn es_id).0 o ≡ es_id % 2 ^ 32
  unfolding add_alc_fpi_0_130
  fpi_0_130_word =
      rw (bit_and-mask 32 es_id) (read32-write32_self m o (es_id % 2 ^ 32) (omega arith))

  -- For a finite field parameter of 16, that of the sender.
  pub fpi_3_word :
      read32 (add_alc_fpi_3 m o sbn es_id 16).0 o ≡ sbn % 2 ^ 16 * 2 ^ 16 + es_id % 2 ^ 16
  unfolding add_alc_fpi_3
  fpi_3_word =
      let low = es_id % 2 ^ 16 in
      let shifted : u32 (sbn <<< 16) ≡ sbn % 2 ^ 16 * 2 ^ 16 = omega arith in
      rw (bit_and-mask 16 es_id, shifted, bit_or-fields 16 (sbn % 2 ^ 16) low (omega arith))
        (read32-write32_self m o (sbn % 2 ^ 16 * 2 ^ 16 + low) (omega arith))

-- ===== src/Lct/Words.antt =====
-- The words of the extensions as sums of their fields.
use route.Base.{
  ℕ, ◌+◌, ◌-◌, ◌*◌, ◌/◌, ◌%◌, ◌^◌, ◌<◌, ◌≡◌, ap, ◌∙◌, arith, bit_and, bit_or, u16, u32, ◌<<<◌,
  ◌>>>◌,
}
use route.Base.Bits.{bit_or-fields, bit_and-mask, bit_and-shifted}
use route.Wire.{Buffer, read32, write32}
use route.Wire.Laws.{read32-write32_self, read32-write32_below}
use route.Lct.{add_tol_lct_he, add_fdt_lct_he, add_cenc_lct_he, write_transfer_length}

-- A field of `j` bits above `k` others, as the receiver takes it out.
pub high_field : (j k w : ℕ) → bit_and w ((2 ^ j - 1) * 2 ^ k) ≡ w / 2 ^ k % 2 ^ j * 2 ^ k
high_field j k w =
    bit_and-shifted k w (2 ^ j - 1) ∙ ap (λ (t : ℕ). t * 2 ^ k) (bit_and-mask j (w / 2 ^ k))

-- Two fields: 16 bits and 16 bits.
pub halves : (hi lo : ℕ) → lo < 2 ^ 16 → bit_or (hi <<< 16) lo ≡ hi * 2 ^ 16 + lo
halves hi lo h = bit_or-fields 16 hi lo h

-- Three fields: 8, 8 and 16 bits.
pub bytes_and_half :
    (a b c : ℕ)
    → b < 2 ^ 8
    → c < 2 ^ 16
    → bit_or (bit_or (a <<< 24) (b <<< 16)) c ≡ a * 2 ^ 24 + b * 2 ^ 16 + c
bytes_and_half a b c hb hc =
    ap (λ (t : ℕ). bit_or t c) regrouped ∙ bit_or-fields 16 (a * 2 ^ 8 + b) c hc ∙ omega arith
  where
    regrouped : bit_or (a <<< 24) (b <<< 16) ≡ (a * 2 ^ 8 + b) * 2 ^ 16
    regrouped = bit_or-fields 24 a (b <<< 16) (omega arith) ∙ omega arith

-- The word that `add_tol_lct_he` writes is the type 194 and the transfer length modulo 2 ^ 16.
pub tol_word :
    (m : Buffer) (o l : ℕ) → read32 (add_tol_lct_he m o l).0 o ≡ 194 * 2 ^ 24 + l % 2 ^ 16
unfolding add_tol_lct_he
tol_word m o l = rw (bit_and-mask 24 (u32 l)) (
    rw (bit_or-fields 24 194 (u16 (u32 l % 2 ^ 24)) (omega arith)) (
      rw (read32-write32_self m o (194 * 2 ^ 24 + u16 (u32 l % 2 ^ 24)) (omega arith))
        (omega arith)))

pub fdt_word :
    (m : Buffer) (o id : ℕ)
    → read32 (add_fdt_lct_he m o id).0 o ≡ 192 * 2 ^ 24 + 2 ^ 20 + id % 2 ^ 20
unfolding add_fdt_lct_he
fdt_word m o id = rw (bit_and-mask 20 id) (
    rw (bit_or-fields 20 3073 (id % 2 ^ 20) (omega arith))
      (rw (read32-write32_self m o (3073 * 2 ^ 20 + id % 2 ^ 20) (omega arith)) (omega arith)))

pub cenc_word :
    (m : Buffer) (o c : ℕ)
    → c < 2 ^ 8
    → read32 (add_cenc_lct_he m o c).0 o ≡ 193 * 2 ^ 24 + c * 2 ^ 16
unfolding add_cenc_lct_he
cenc_word m o c h =
    rw (bytes_and_half 193 c 0 h (omega arith))
      (rw (read32-write32_self m o (193 * 2 ^ 24 + c * 2 ^ 16 + 0) (omega arith)) (omega arith))

-- The words of the object transmission information: the transfer length is cut to 48 bits.
module _ (m : Buffer) (o l : ℕ) where
  pub length_words :
      (read32 (write_transfer_length m o l) o ≡ 64 * 2 ^ 24 + 4 * 2 ^ 16 + l / 2 ^ 32 % 2 ^ 16)
      × (read32 (write_transfer_length m o l) (o + 4) ≡ l % 2 ^ 32)
  unfolding write_transfer_length
  length_words =
      let hi = u16 (u32 (l >>> 32) % 2 ^ 16) in
      rw (bit_and-mask 16 (u32 (l >>> 32))) (
        rw (bytes_and_half 64 4 hi (omega arith) (omega arith)) (
          omega (
            arith,
            read32-write32_below (write32 m o (64 * 2 ^ 24 + 4 * 2 ^ 16 + hi)) (o + 4) (u32 l) o
                (omega arith),
            read32-write32_self m o (64 * 2 ^ 24 + 4 * 2 ^ 16 + hi) (omega arith),
            read32-write32_self (write32 m o (64 * 2 ^ 24 + 4 * 2 ^ 16 + hi)) (o + 4) (u32 l)
                (omega arith),
          )))

-- ===== src/Packet/Extension/Length.antt =====
-- The object transmission information of the schemes 0 and 2, from `add_fti_0_2_128_130_lct_he` of
-- alclib/lct_hdr.c to the loop of `parse_packet`.
use route.Base.{ℕ, ◌+◌, ◌-◌, ◌*◌, ◌/◌, ◌%◌, ◌^◌, ◌≤◌, ◌<◌, ◌≡◌, ◌⊎◌, ◌∙◌, arith, bit_or, ◌<<<◌}
use route.Base.Bits.{bit_and-mask}
use route.Wire.{Buffer, read32, write32}
use route.Wire.Laws.{read32-write32_self, read32-write32_below}
use route.Lct.{add_fti_0_2_128_130_lct_he, write_transfer_length}
use route.Lct.Words.{high_field, halves, length_words}
use route.Packet.Status.{ok}
use route.Packet.Extension.{Ext, read_extension}

module _ (m : Buffer) (o l es_len max_sb_len : ℕ) where
  abbrev written : Buffer
  written = (add_fti_0_2_128_130_lct_he m o l 0 es_len max_sb_len).0

  fti_words :
      es_len < 2 ^ 16
      → max_sb_len < 2 ^ 32
      → (read32 written o ≡ 64 * 2 ^ 24 + 4 * 2 ^ 16 + l / 2 ^ 32 % 2 ^ 16)
        × (read32 written (o + 4) ≡ l % 2 ^ 32)
        × (read32 written (o + 8) ≡ es_len)
        × (read32 written (o + 12) ≡ max_sb_len)
  unfolding add_fti_0_2_128_130_lct_he
  fti_words p q =
      let start = write_transfer_length m o l in
      let third = bit_or (0 <<< 16) es_len in
      let three = write32 start (o + 8) third in
      let below = λ (a : ℕ) (h : a + 4 ≤ o + 8).
        read32-write32_below three (o + 12) max_sb_len a (omega arith)
        ∙ read32-write32_below start (o + 8) third a h in
      let eq : third ≡ es_len = halves 0 es_len p ∙ omega arith in
      (
        below o (omega arith) ∙ (length_words m o l).0,
        below (o + 4) (omega arith) ∙ (length_words m o l).1,
        read32-write32_below three (o + 12) max_sb_len (o + 8) (omega arith)
            ∙ read32-write32_self start (o + 8) third (omega arith)
            ∙ eq,
        read32-write32_self three (o + 12) max_sb_len q,
      )

-- The four words of an extension for a length below 2 ^ 48 are consumed, and the symbol and block
-- lengths come back. Of the transfer length the lower 32 bits come back, and what lies above them
-- is added at bit 16.
pub read-add_fti :
    (fec : ℕ) (m : Buffer) (l es_len max_sb_len : ℕ) (x : Ext)
    → (fec ≡ 0) ⊎ (fec ≡ 2)
    → es_len < 2 ^ 16
    → max_sb_len < 2 ^ 32
    → l < 2 ^ 48
    → 4 ≤ x.exthdrlen
    → read_extension fec (add_fti_0_2_128_130_lct_he m x.hdrlen l 0 es_len max_sb_len).0 x
      ≡ ok (record x {
        hdrlen = x.hdrlen + 16;
        exthdrlen = x.exthdrlen - 4;
        hel = 4;
        transfer_len = l / 2 ^ 32 * 2 ^ 16 + l % 2 ^ 32;
        fec_inst_id = 0;
        es_len = es_len;
        max_sb_len = max_sb_len;
      })
unfolding read_extension
read-add_fti fec m l es_len max_sb_len x scheme p q r room =
    let (w₀, w₁, w₂, w₃) = fti_words m x.hdrlen l es_len max_sb_len p q in
    let first = 64 * 2 ^ 24 + 4 * 2 ^ 16 + l / 2 ^ 32 % 2 ^ 16 in
    ground (
      arith,
      w₀,
      w₁,
      w₂,
      w₃,
      high_field 8 24 first,
      high_field 8 16 first,
      bit_and-mask 16 first,
      bit_and-mask 16 es_len,
      high_field 16 16 es_len,
    )

-- ===== src/Packet/Send.antt =====
-- The header that `send_unit` of alclib/alc_tx.c writes. The fields of the structure lie below
-- offset 8 and the words from there on, so the model keeps them apart until they are stored.
pub mod Shapes
pub mod RoundTrip
pub mod Compose
pub mod Refused
use route.Base.{
  ℕ, ◌+◌, ◌-◌, ◌^◌, Bool, true, false, ◌&&◌, ◌||◌, Option, none, some, ltb, leb, if◌then◌else◌,
  bit_and, bit_or, u16, u32, ◌<<<◌, ◌>>>◌,
}
use route.Wire.{Buffer, write32}
use route.Packet.Header.{LctHdr, sizeof_lct_hdr}

-- The flags `S`, `O`, `H`, the buffer and the header length that the identifiers give.
pub record Addressed : Type 0 where
  pub s : ℕ
  pub o : ℕ
  pub h : ℕ
  pub buffer : Buffer
  pub hdrlen : ℕ

abbrev pub max_16bits : ℕ
max_16bits = 0xFFFF

abbrev pub max_32bits : ℕ
max_32bits = 0xFFFFFFFF

abbrev pub max_48bits : ℕ
max_48bits = 0xFFFFFFFFFFFF

abbrev pub max_64bits : ℕ
max_64bits = 0xFFFFFFFFFFFFFFFF

-- `((half_word1 << 16) | (half_word2 & 0xFFFF))`
abbrev pub half_words : ℕ → ℕ → ℕ
half_words half_word1 half_word2 = bit_or (half_word1 <<< 16) (bit_and half_word2 0xFFFF)

unfoldable pub tsi16_toi16 : Buffer → ℕ → ℕ → Addressed
tsi16_toi16 m tsi toi = record {
  s = 0;
  o = 0;
  h = 1;
  buffer = write32 m sizeof_lct_hdr (half_words (u16 tsi) (u16 toi));
  hdrlen = sizeof_lct_hdr + 4;
}

unfoldable pub tsi32_toi32 : Buffer → ℕ → ℕ → Addressed
tsi32_toi32 m tsi toi = record {
  s = 1;
  o = 1;
  h = 0;
  buffer = write32 (write32 m sizeof_lct_hdr (u32 tsi)) (sizeof_lct_hdr + 4) (u32 toi);
  hdrlen = sizeof_lct_hdr + 8;
}

unfoldable pub tsi16_toi48 : Buffer → ℕ → ℕ → Addressed
tsi16_toi48 m tsi toi = record {
  s = 0;
  o = 1;
  h = 1;
  buffer =
      write32
        (write32 m sizeof_lct_hdr (half_words (u16 tsi) (u16 (bit_and (toi >>> 32) 0x0000FFFF))))
        (sizeof_lct_hdr + 4) (u32 toi);
  hdrlen = sizeof_lct_hdr + 8;
}

unfoldable pub tsi48_toi16 : Buffer → ℕ → ℕ → Addressed
tsi48_toi16 m tsi toi = record {
  s = 1;
  o = 0;
  h = 1;
  buffer =
      write32 (write32 m sizeof_lct_hdr (u32 (bit_and (tsi >>> 16) 0xFFFFFFFF)))
        (sizeof_lct_hdr + 4) (half_words (u16 (bit_and tsi 0x0000FFFF)) (u16 toi));
  hdrlen = sizeof_lct_hdr + 8;
}

unfoldable pub tsi48_toi48 : Buffer → ℕ → ℕ → Addressed
tsi48_toi48 m tsi toi = record {
  s = 1;
  o = 1;
  h = 1;
  buffer =
      write32
        (write32 (write32 m sizeof_lct_hdr (u32 (bit_and (tsi >>> 16) 0xFFFFFFFF)))
          (sizeof_lct_hdr + 4)
          (half_words (u16 (bit_and tsi 0x0000FFFF)) (u16 (bit_and (toi >>> 32) 0x0000FFFF))))
        (sizeof_lct_hdr + 8) (u32 toi);
  hdrlen = sizeof_lct_hdr + 12;
}

unfoldable pub tsi32_toi64 : Buffer → ℕ → ℕ → Addressed
tsi32_toi64 m tsi toi = record {
  s = 1;
  o = 2;
  h = 0;
  buffer =
      write32
        (write32 (write32 m sizeof_lct_hdr (u32 tsi)) (sizeof_lct_hdr + 4)
          (u32 (bit_and (toi >>> 32) 0xFFFFFFFF)))
        (sizeof_lct_hdr + 8) (u32 toi);
  hdrlen = sizeof_lct_hdr + 12;
}

-- `lo < x && x <= hi`
abbrev pub between : ℕ → ℕ → ℕ → Bool
between lo x hi = ltb lo x && leb x hi

-- The combinations with more than 32 bits; `none` is the return of -1: no shape serves the two.
unfoldable pub wide_shapes : Buffer → ℕ → ℕ → Option Addressed
wide_shapes m tsi toi =
    if leb tsi max_16bits && between max_32bits toi max_48bits
    then some (tsi16_toi48 m tsi toi)
    else if ltb toi max_16bits && between max_32bits tsi max_48bits
    then some (tsi48_toi16 m tsi toi)
    else if between max_32bits tsi max_48bits && between max_32bits toi max_48bits
    then some (tsi48_toi48 m tsi toi)
    else if between max_16bits tsi max_32bits && between max_32bits toi max_64bits
    then some (tsi32_toi64 m tsi toi)
    else if ltb tsi max_16bits && between max_48bits toi max_64bits
    then some (tsi32_toi64 m tsi toi)
    else none

unfoldable pub half_word_shapes : Buffer → ℕ → ℕ → Option Addressed
unfolding wide_shapes
half_word_shapes m tsi toi =
    if leb tsi max_16bits && leb toi max_16bits
    then some (tsi16_toi16 m tsi toi)
    else if (leb tsi max_16bits && between max_16bits toi max_32bits)
        || (leb toi max_16bits && between max_16bits tsi max_32bits)
    then some (tsi32_toi32 m tsi toi)
    else if between max_16bits tsi max_32bits && between max_16bits toi max_32bits
    then some (tsi32_toi32 m tsi toi)
    else wide_shapes m tsi toi

unfoldable pub write_address : Bool → Buffer → ℕ → ℕ → Option Addressed
unfolding half_word_shapes
write_address half_word m tsi toi =
    if half_word
    then half_word_shapes m tsi toi
    else if leb toi max_32bits
    then some (tsi32_toi32 m tsi toi)
    else if between max_32bits toi max_64bits
    then some (tsi32_toi64 m tsi toi)
    else none

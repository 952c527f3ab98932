-- ===== src/Lct.antt =====
-- The LCT header extensions that the sender writes: alclib/lct_hdr.c, with the extension types of
-- alclib/defines.h. A function returns the buffer and the number of bytes that it added at
-- `hdrlen`. A shift into the sign bit of an `int` is the shift of its bit pattern.
pub mod Words
use route.Base.{ℕ, ◌+◌, bit_and, bit_or, u16, u32, ◌<<<◌, ◌>>>◌}
use route.Wire.{Buffer, write32}

abbrev pub ext_fti : ℕ
ext_fti = 64

abbrev pub ext_fdt : ℕ
ext_fdt = 192

abbrev pub ext_cenc : ℕ
ext_cenc = 193

abbrev pub ext_tol : ℕ
ext_tol = 194

abbrev pub flute_version : ℕ
flute_version = 1

unfoldable pub add_tol_lct_he : Buffer → ℕ → ℕ → Buffer × ℕ
add_tol_lct_he m hdrlen transferlen =
    let tmp = u16 (bit_and (u32 transferlen) 0x00FFFFFF) in
    (write32 m hdrlen (bit_or (ext_tol <<< 24) tmp), 4)

unfoldable pub add_fdt_lct_he : Buffer → ℕ → ℕ → Buffer × ℕ
add_fdt_lct_he m hdrlen fdt_instance_id =
    let word =
      bit_or (bit_or (ext_fdt <<< 24) (bit_and flute_version 0xF <<< 20))
        (bit_and fdt_instance_id 0x000FFFFF) in
    (write32 m hdrlen word, 4)

unfoldable pub add_cenc_lct_he : Buffer → ℕ → ℕ → Buffer × ℕ
add_cenc_lct_he m hdrlen content_enc_algo =
    let word = bit_or (bit_or (ext_cenc <<< 24) (content_enc_algo <<< 16)) (bit_and 0 0x0000FFFF) in
    (write32 m hdrlen word, 4)

-- The first two words of the three FTI extensions: type, length and transfer length.
unfoldable pub write_transfer_length : Buffer → ℕ → ℕ → Buffer
write_transfer_length m hdrlen transferlen =
    let tmp = u16 (bit_and (u32 (transferlen >>> 32)) 0x0000FFFF) in
    write32 (write32 m hdrlen (bit_or (bit_or (ext_fti <<< 24) (4 <<< 16)) tmp)) (hdrlen + 4)
      (u32 transferlen)

unfoldable pub add_fti_0_2_128_130_lct_he : Buffer → ℕ → ℕ → ℕ → ℕ → ℕ → Buffer × ℕ
unfolding write_transfer_length
add_fti_0_2_128_130_lct_he m hdrlen transferlen fec_inst_id eslen max_sblen = (
  write32
      (write32 (write_transfer_length m hdrlen transferlen) (hdrlen + 8)
        (bit_or (fec_inst_id <<< 16) eslen))
      (hdrlen + 12) max_sblen,
  16,
)

unfoldable pub add_fti_3_lct_he : Buffer → ℕ → ℕ → ℕ → ℕ → ℕ → ℕ → ℕ → Buffer × ℕ
unfolding write_transfer_length
add_fti_3_lct_he m hdrlen transferlen finite_field g eslen max_sblen mxnbofes = (
  write32
      (write32 (write_transfer_length m hdrlen transferlen) (hdrlen + 8)
        (bit_or (bit_or (finite_field <<< 24) (g <<< 16)) eslen))
      (hdrlen + 12) (bit_or (max_sblen <<< 16) mxnbofes),
  16,
)

unfoldable pub add_fti_129_lct_he : Buffer → ℕ → ℕ → ℕ → ℕ → ℕ → ℕ → Buffer × ℕ
unfolding write_transfer_length
add_fti_129_lct_he m hdrlen transferlen fec_inst_id eslen max_sblen mxnbofes = (
  write32
      (write32 (write_transfer_length m hdrlen transferlen) (hdrlen + 8)
        (bit_or (fec_inst_id <<< 16) eslen))
      (hdrlen + 12) (bit_or (max_sblen <<< 16) mxnbofes),
  16,
)

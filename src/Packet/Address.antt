-- ===== src/Packet/Address.antt =====
-- The TSI and the TOI behind the fixed header: `parse_packet` reads them in one of five shapes,
-- and tests the TSI against the session's.
use route.Base.{ℕ, ◌+◌, ◌==◌, not, if◌then◌else◌, bit_and, u64, ◌<<<◌, ◌>>>◌}
use route.Wire.{Buffer, read32}
use route.Packet.Status.{Result, ok, stop, ◌>>◌, stop_if, hdr_error, empty_packet}
use route.Packet.Header.{LctHdr, sizeof_lct_hdr}

-- The identifiers, and the offset behind them.
pub record Address : Type 0 where
  pub tsi : ℕ
  pub toi : ℕ
  pub hdrlen : ℕ

-- `flag_h == 1`: the last word read holds the lower half of the TSI and the upper half of the TOI.
unfoldable pub half_word_toi : LctHdr → Buffer → ℕ → ℕ → ℕ → Result Address
half_word_toi h m tsi word hdrlen =
    if h.flag_o == 0
    then ok (record { tsi = tsi; toi = bit_and word 0x0000FFFF; hdrlen = hdrlen })
    else if h.flag_o == 1
    then ok (record {
      tsi = tsi;
      toi = u64 (u64 (bit_and word 0x0000FFFF <<< 32) + read32 m hdrlen);
      hdrlen = hdrlen + 4;
    })
    else stop hdr_error

unfoldable pub half_word_address : LctHdr → Buffer → ℕ → Result Address
unfolding half_word_toi
half_word_address h m session_tsi =
    if h.flag_s == 0
    then (let word = read32 m sizeof_lct_hdr in
        let tsi = bit_and word 0xFFFF0000 >>> 16 in
        stop_if (not (tsi == session_tsi)) hdr_error
        >> half_word_toi h m tsi word (sizeof_lct_hdr + 4))
    else (let word = read32 m (sizeof_lct_hdr + 4) in
        let tsi = u64 (u64 (read32 m sizeof_lct_hdr <<< 16) + (bit_and word 0xFFFF0000 >>> 16)) in
        stop_if (not (tsi == session_tsi)) hdr_error
        >> half_word_toi h m tsi word (sizeof_lct_hdr + 8))

-- `flag_h == 0`: a TSI of 32 bits, and a TOI of 0, 32 or 64 bits.
unfoldable pub full_word_toi : LctHdr → Buffer → ℕ → Result Address
full_word_toi h m tsi =
    let hdrlen = sizeof_lct_hdr + 4 in
    if h.flag_o == 0
    then (if h.flag_b == 1 then stop empty_packet else stop hdr_error)
    else if h.flag_o == 1
    then ok (record { tsi = tsi; toi = read32 m hdrlen; hdrlen = hdrlen + 4 })
    else if h.flag_o == 2
    then ok (record {
      tsi = tsi;
      toi = u64 (u64 (read32 m hdrlen <<< 32) + read32 m (hdrlen + 4));
      hdrlen = hdrlen + 8;
    })
    else stop hdr_error

unfoldable pub full_word_address : LctHdr → Buffer → ℕ → Result Address
unfolding full_word_toi
full_word_address h m session_tsi =
    if h.flag_s == 1
    then (let tsi = read32 m sizeof_lct_hdr in
        stop_if (not (tsi == session_tsi)) hdr_error >> full_word_toi h m tsi)
    else stop hdr_error

unfoldable pub read_address : LctHdr → Buffer → ℕ → Result Address
unfolding half_word_address full_word_address
read_address h m session_tsi =
    if h.flag_h == 1 then half_word_address h m session_tsi else full_word_address h m session_tsi

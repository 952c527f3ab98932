-- ===== src/Packet/Header.antt =====
-- The fixed part of the LCT header, `def_lct_hdr_t` of alclib/lct_hdr.h, in the layout of a
-- little-endian machine (`_BIT_FIELDS_LTOH`), and the tests that `parse_packet` makes on it.
pub mod Layout
use route.Base.{ℕ, ◌+◌, ◌*◌, ◌/◌, ◌%◌, ◌^◌, ◌==◌, ◌||◌, not, ltb, if◌then◌else◌}
use route.Wire.{Buffer, store8, read32, write32, swap_short}
use route.Packet.Status.{Result, ok, stop, ◌>>=◌, ◌>>◌, stop_if, hdr_error}

pub record LctHdr : Type 0 where
  pub codepoint : ℕ
  pub hdr_len : ℕ
  pub flag_b : ℕ
  pub flag_a : ℕ
  pub reserved : ℕ
  pub flag_h : ℕ
  pub flag_o : ℕ
  pub flag_s : ℕ
  pub psi : ℕ
  pub flag_c : ℕ
  pub version : ℕ
  pub cci : ℕ

-- `sizeof(def_lct_hdr_t)`
abbrev pub sizeof_lct_hdr : ℕ
sizeof_lct_hdr = 8

-- The fields of the structure at the start of a buffer.
unfoldable pub load_hdr : Buffer → LctHdr
load_hdr m = record {
  codepoint = m 0;
  hdr_len = m 1;
  flag_b = m 2 % 2;
  flag_a = m 2 / 2 % 2;
  reserved = m 2 / 4 % 4;
  flag_h = m 2 / 16 % 2;
  flag_o = m 2 / 32 % 4;
  flag_s = m 2 / 128 % 2;
  psi = m 3 % 4;
  flag_c = m 3 / 4 % 4;
  version = m 3 / 16 % 16;
  cci = m 4 + m 5 * 2 ^ 8 + m 6 * 2 ^ 16 + m 7 * 2 ^ 24;
}

-- The structure, stored there field by field.
unfoldable pub store_hdr : Buffer → LctHdr → Buffer
unfolding store8
store_hdr m h =
    let low =
      h.flag_b + h.flag_a * 2 + h.reserved * 4 + h.flag_h * 16 + h.flag_o * 32 + h.flag_s * 128 in
    let high = h.psi + h.flag_c * 4 + h.version * 16 in
    let words = store8 (store8 (store8 (store8 m 0 h.codepoint) 1 h.hdr_len) 2 low) 3 high in
    store8
      (store8 (store8 (store8 words 4 (h.cci % 256)) 5 (h.cci / 2 ^ 8 % 256)) 6
        (h.cci / 2 ^ 16 % 256))
      7 (h.cci / 2 ^ 24 % 256)

-- The fields that `parse_packet` sees: the first 16 bits are exchanged in place first.
unfoldable pub parsed_hdr : Buffer → LctHdr
unfolding load_hdr swap_short
parsed_hdr m = load_hdr (swap_short m)

-- The tests on the fixed header, in their order. A congestion control field that is not zero
-- changes nothing.
unfoldable pub check_hdr : ℕ → LctHdr → Result (Unit {0})
check_hdr len h = do
  stop_if (ltb len sizeof_lct_hdr) hdr_error
  stop_if (not (h.version == 1)) hdr_error
  stop_if (not (h.psi == 2)) hdr_error
  stop_if (not (h.reserved == 0)) hdr_error
  stop_if (h.flag_a == 1) hdr_error
  stop_if (not (h.flag_c == 0)) hdr_error

-- ===== src/Packet/PayloadId.antt =====
-- The FEC payload identifier behind the LCT header, as `parse_packet` (alclib/alc_rx.c) reads it.
pub mod RoundTrip
use route.Base.{ℕ, ◌+◌, ◌-◌, ◌^◌, ◌||◌, ltb, leb, ◌==◌, if◌then◌else◌, bit_and, ◌>>>◌}
use route.Wire.{Buffer, read32}
use route.Packet.Status.{Result, ok, ◌>>◌, stop_if, hdr_error, undefined}
use route.Packet.Extension.{
  com_no_c_fec_enc_id, simple_xor_fec_enc_id, rs_fec_enc_id, sb_lb_e_fec_enc_id, sb_sys_fec_enc_id,
  com_fec_enc_id,
}

-- The block and symbol numbers, and the offset behind them.
pub record PayloadId : Type 0 where
  pub sbn : ℕ
  pub esi : ℕ
  pub hdrlen : ℕ

-- `sbn` keeps its initial 0.
unfoldable pub read_id_0_130 : ℕ → Buffer → ℕ → Result PayloadId
read_id_0_130 len m hdrlen = do
  stop_if (ltb len (hdrlen + 4)) hdr_error
  ok (record { sbn = 0; esi = read32 m hdrlen; hdrlen = hdrlen + 4 })

-- `(1 << finite_field) - 1` is undefined from 31 bits on. The length of the packet is not tested.
unfoldable pub read_id_rs : ℕ → Buffer → ℕ → Result PayloadId
read_id_rs finite_field m hdrlen = do
  stop_if (leb 31 finite_field) undefined
  let word = read32 m hdrlen
  ok (record {
    sbn = word >>> finite_field;
    esi = bit_and word (2 ^ finite_field - 1);
    hdrlen = hdrlen + 4;
  })

unfoldable pub read_id_2_128 : ℕ → Buffer → ℕ → Result PayloadId
read_id_2_128 len m hdrlen = do
  stop_if (ltb len (hdrlen + 8)) hdr_error
  ok (record { sbn = read32 m hdrlen; esi = read32 m (hdrlen + 4); hdrlen = hdrlen + 8 })

unfoldable pub read_id_129 : ℕ → Buffer → ℕ → Result PayloadId
read_id_129 len m hdrlen = do
  stop_if (ltb len (hdrlen + 8)) hdr_error
  ok (record {
    sbn = read32 m hdrlen;
    esi = bit_and (read32 m (hdrlen + 4)) 0xFFFF;
    hdrlen = hdrlen + 8;
  })

-- An id of no scheme leaves all at its initial value.
unfoldable pub read_payload_id : ℕ → ℕ → ℕ → Buffer → ℕ → Result PayloadId
unfolding read_id_0_130 read_id_rs read_id_2_128 read_id_129
read_payload_id fec_enc_id finite_field len m hdrlen =
    if fec_enc_id == com_no_c_fec_enc_id || fec_enc_id == com_fec_enc_id
    then read_id_0_130 len m hdrlen
    else if fec_enc_id == rs_fec_enc_id
    then read_id_rs finite_field m hdrlen
    else if fec_enc_id == sb_lb_e_fec_enc_id || fec_enc_id == simple_xor_fec_enc_id
    then read_id_2_128 len m hdrlen
    else if fec_enc_id == sb_sys_fec_enc_id
    then read_id_129 len m hdrlen
    else ok (record { sbn = 0; esi = 0; hdrlen = hdrlen })

-- ===== src/Packet/Send/Compose.antt =====
-- The header of `send_unit` of alclib/alc_tx.c as a whole: the structure, the identifiers, the
-- extensions and the payload identifier, as the code composes them.
use route.Base.{ℕ, ◌+◌, Bool, ◌||◌, Option, none, some, ◌==◌, if◌then◌else◌, u8, u16, ◌>>>◌}
use route.Wire.{Buffer, swap_short}
use route.Lct.{
  add_fdt_lct_he, add_cenc_lct_he, add_fti_0_2_128_130_lct_he, add_fti_3_lct_he, add_fti_129_lct_he,
}
use route.Alc.{add_alc_fpi_2_128, add_alc_fpi_129, add_alc_fpi_0_130, add_alc_fpi_3}
use route.Packet.Header.{LctHdr, store_hdr}
use route.Packet.Send.{Addressed, write_address}

-- What the call reads of the session, the block and the unit.
pub record SendArgs : Type 0 where
  pub half_word : Bool
  pub tsi : ℕ
  pub toi : ℕ
  pub fdt_instance_id : ℕ
  pub zlib_fdt : Bool
  pub use_fec_oti_ext_hdr : Bool
  pub transfer_len : ℕ
  pub max_sb_len : ℕ
  pub es_len : ℕ
  pub fec_enc_id : ℕ
  pub fec_inst_id : ℕ
  pub sbn : ℕ
  pub k : ℕ
  pub max_k : ℕ
  pub max_n : ℕ
  pub esi : ℕ

-- `GF_BITS` of alclib/fec.h
abbrev pub gf_bits : ℕ
gf_bits = 16

abbrev pub Position : Type 0
Position = Buffer × ℕ

-- `hdrlen += f(def_lct_hdr, hdrlen, ...)`
abbrev pub adding : (Buffer → ℕ → Buffer × ℕ) → Position → Position
adding f (m, hdrlen) = let (m', n) = f m hdrlen in (m', hdrlen + n)

unfoldable pub add_fdt_extensions : SendArgs → Position → Position
add_fdt_extensions a p =
    if a.toi == 0
    then (let p' = adding (λ m o. add_fdt_lct_he m o a.fdt_instance_id) p in
        if a.zlib_fdt then adding (λ m o. add_cenc_lct_he m o 1) p' else p')
    else p

unfoldable pub add_fti : SendArgs → Position → Position
add_fti a p =
    if a.fec_enc_id == 0 || a.fec_enc_id == 2
    then adding (λ m o. add_fti_0_2_128_130_lct_he m o a.transfer_len 0 a.es_len a.max_sb_len) p
    else if a.fec_enc_id == 5
    then adding
        (λ m o. add_fti_3_lct_he m o a.transfer_len gf_bits 1 a.es_len (u16 a.max_k) (u16 a.max_n))
        p
    else if a.fec_enc_id == 130 || a.fec_enc_id == 128
    then adding
        (λ m o. add_fti_0_2_128_130_lct_he m o a.transfer_len a.fec_inst_id a.es_len a.max_sb_len) p
    else if a.fec_enc_id == 129
    then adding
        (λ m o.
          add_fti_129_lct_he m o a.transfer_len a.fec_inst_id a.es_len (u16 a.max_k) (u16 a.max_n))
        p
    else p

unfoldable pub add_extensions : SendArgs → Position → Position
add_extensions a p =
    let p' = add_fdt_extensions a p in
    if a.toi == 0 || a.use_fec_oti_ext_hdr then add_fti a p' else p'

unfoldable pub add_payload_id : SendArgs → Position → Position
add_payload_id a p =
    if a.fec_enc_id == 0 || a.fec_enc_id == 130
    then adding (λ m o. add_alc_fpi_0_130 m o (u16 a.sbn) a.esi) p
    else if a.fec_enc_id == 2
    then adding (λ m o. add_alc_fpi_2_128 m o a.sbn a.esi) p
    else if a.fec_enc_id == 5
    then adding (λ m o. add_alc_fpi_3 m o a.sbn a.esi gf_bits) p
    else if a.fec_enc_id == 128
    then adding (λ m o. add_alc_fpi_2_128 m o a.sbn a.esi) p
    else if a.fec_enc_id == 129
    then adding (λ m o. add_alc_fpi_129 m o a.sbn (u16 a.k) (u16 a.esi)) p
    else p

-- The fields that `send_unit` sets; `hdr_len` is a byte.
abbrev pub sent_hdr : SendArgs → Addressed → ℕ → LctHdr
sent_hdr a w hdrlen = record {
  codepoint = a.fec_enc_id;
  hdr_len = u8 (hdrlen >>> 2);
  flag_b = 0;
  flag_a = 0;
  reserved = 0;
  flag_h = w.h;
  flag_o = w.o;
  flag_s = w.s;
  psi = 0;
  flag_c = 0;
  version = 1;
  cci = 0;
}

abbrev pub with_header : SendArgs → Addressed → Position → Position
with_header a w (m, hdrlen) = (swap_short (store_hdr m (sent_hdr a w hdrlen)), hdrlen)

abbrev pub composed : SendArgs → Option Addressed → Option Position
composed a none = none
composed a (some w) =
    some (add_payload_id a (with_header a w (add_extensions a (w.buffer, w.hdrlen))))

-- The packet header and its length; the buffer is cleared first. `none` is the return of -1.
unfoldable pub send_header : SendArgs → Option Position
send_header a = composed a (write_address a.half_word (λ p. 0) a.tsi a.toi)

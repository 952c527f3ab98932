-- ===== src/Packet/Parse.antt =====
-- `parse_packet` of alclib/alc_rx.c: the parts in their order. The number of bytes received and
-- the session's TSI and FDT instances are arguments; `fuel` bounds the loop over the extensions.
pub mod Laws
pub mod Halting
use route.Base.{
  ℕ, ◌+◌, ◌-◌, ◌/◌, Bool, true, false, ◌&&◌, ◌||◌, not, List, [], ◌∷◌, ltb, ◌==◌, if◌then◌else◌,
  ◌>>>◌,
}
use route.Wire.{Buffer, swap_short}
use route.Packet.Status.{
  Result, ok, stop, ◌>>=◌, ◌>>◌, stop_if, hdr_error, empty_packet, dup_packet,
}
use route.Packet.Header.{LctHdr, parsed_hdr, check_hdr}
use route.Packet.Address.{Address, read_address}
use route.Packet.Extension.{
  Ext, read_extensions, com_no_c_fec_enc_id, simple_xor_fec_enc_id, rs_fec_enc_id,
  sb_sys_fec_enc_id,
}
use route.Packet.PayloadId.{PayloadId, read_payload_id}

-- What the parser reads of the session: its TSI, and the list of FDT instances received.
pub record Session : Type 0 where
  pub tsi : ℕ
  pub rx_fdt_instance_list : List ℕ

-- `is_received_instance` of alclib/alc_session.c
unfoldable pub is_received_instance : List ℕ → ℕ → Bool
is_received_instance [] fdt_instance_id = false
is_received_instance (x ∷ xs) fdt_instance_id =
    if x == fdt_instance_id then true else is_received_instance xs fdt_instance_id

-- The results that go through the pointer arguments.
pub record Parsed : Type 0 where
  pub hdrlen : ℕ
  pub toi : ℕ
  pub tsi : ℕ
  pub sbn : ℕ
  pub esi : ℕ

abbrev pub supported : ℕ → Bool
supported fec_enc_id =
    fec_enc_id == com_no_c_fec_enc_id
    || fec_enc_id == rs_fec_enc_id
    || fec_enc_id == sb_sys_fec_enc_id
    || fec_enc_id == simple_xor_fec_enc_id

-- The variables before the loop: all 0 but the header length and what is left of it.
abbrev pub no_ext : ℕ → ℕ → Ext
no_ext hdrlen exthdrlen = record {
  hdrlen = hdrlen;
  exthdrlen = exthdrlen;
  hel = 0;
  fdt_instance_id = 0;
  content_enc_algo = 0;
  transfer_len = 0;
  finite_field = 0;
  nb_of_es_per_group = 0;
  fec_inst_id = 0;
  es_len = 0;
  max_sb_len = 0;
  max_nb_of_es = 0;
}

unfoldable pub read_header_extensions : ℕ → LctHdr → Buffer → ℕ → Result Ext
unfolding read_extensions
read_header_extensions fuel h m hdrlen =
    if ltb (hdrlen >>> 2) h.hdr_len
    then read_extensions fuel h.codepoint m (no_ext hdrlen (h.hdr_len - (hdrlen >>> 2)))
    else ok (no_ext hdrlen 0)

-- The end of the function: a packet with a payload identifier alone is empty.
unfoldable pub complete : ℕ → Address → PayloadId → Result Parsed
complete len a p = do
  stop_if (len == p.hdrlen) empty_packet
  ok (record { hdrlen = p.hdrlen; toi = a.toi; tsi = a.tsi; sbn = p.sbn; esi = p.esi })

-- The tests between the extensions and the payload identifier.
unfoldable pub check_end : ℕ → LctHdr → Session → Address → Ext → Result (Unit {0})
unfolding is_received_instance
check_end len h s a x = do
  stop_if (not (x.hdrlen >>> 2 == h.hdr_len)) hdr_error
  stop_if (x.hdrlen == len) empty_packet
  stop_if (a.toi == 0 && is_received_instance s.rx_fdt_instance_list x.fdt_instance_id) dup_packet

unfoldable pub finish : ℕ → LctHdr → Buffer → Session → Address → Ext → Result Parsed
finish len h m s a x = do
  check_end len h s a x
  p ← read_payload_id h.codepoint x.finite_field len m x.hdrlen
  complete len a p

unfoldable pub parse_packet : ℕ → Buffer → ℕ → Session → Result Parsed
parse_packet fuel m₀ len s = do
  let h = parsed_hdr m₀
  let m = swap_short m₀
  check_hdr len h
  a ← read_address h m s.tsi
  stop_if (not (supported h.codepoint)) hdr_error
  x ← read_header_extensions fuel h m a.hdrlen
  finish len h m s a x

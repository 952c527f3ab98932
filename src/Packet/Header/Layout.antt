-- ===== src/Packet/Header/Layout.antt =====
-- The structure comes back from the buffer, also through the exchange of its first two bytes by
-- the sender and by the receiver.
use route.Base.{◌^◌, ◌<◌, ◌≡◌, arith}
use route.Wire.{Buffer, swap_short}
use route.Packet.Header.{LctHdr, load_hdr, store_hdr, parsed_hdr}

-- Each field fits its bits.
pub record FitsLayout (h : LctHdr) : Type 0 where
  pub flag_b_fits : h.flag_b < 2
  pub flag_a_fits : h.flag_a < 2
  pub reserved_fits : h.reserved < 4
  pub flag_h_fits : h.flag_h < 2
  pub flag_o_fits : h.flag_o < 4
  pub flag_s_fits : h.flag_s < 2
  pub psi_fits : h.psi < 4
  pub flag_c_fits : h.flag_c < 4
  pub version_fits : h.version < 16
  pub cci_fits : h.cci < 2 ^ 32

pub load-store_hdr : (m : Buffer) {h : LctHdr} → FitsLayout h → load_hdr (store_hdr m h) ≡ h
unfolding load_hdr store_hdr
load-store_hdr m f = ground arith

-- A structure whose fields fit their bits comes back: what the sender stores and exchanges, the
-- receiver exchanges and loads.
pub parsed-swap-store_hdr :
    (m : Buffer) {h : LctHdr} → FitsLayout h → parsed_hdr (swap_short (store_hdr m h)) ≡ h
unfolding load_hdr store_hdr parsed_hdr swap_short
parsed-swap-store_hdr m f = ground arith

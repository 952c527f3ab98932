-- ===== src/Packet/Analyze/Refused.antt =====
-- What `analyze_packet` makes of a packet of `send_unit`: the sender exchanges two bytes of the
-- fixed header, the receiver four.
use route.Base.{ℕ, ◌+◌, ◌≤◌, ◌<◌, ◌≡◌, refl, arith, Bool, true, false, some, u8, ◌>>>◌}
use route.Wire.{Buffer, swap_short}
use route.Lct.{
  add_fdt_lct_he, add_cenc_lct_he, add_fti_0_2_128_130_lct_he, add_fti_3_lct_he, add_fti_129_lct_he,
}
use route.Packet.Status.{stop, hdr_error}
use route.Packet.Header.{LctHdr, load_hdr, store_hdr}
use route.Packet.Send.{
  Addressed, write_address, tsi16_toi16, tsi32_toi32, tsi16_toi48, tsi48_toi16, tsi48_toi48,
  tsi32_toi64,
}
use route.Packet.Send.Compose.{SendArgs, add_fdt_extensions, add_fti, add_extensions, send_header}
use route.Packet.Send.Refused.{send_header-Sent}
use route.Packet.Analyze.{Channel, swap_long, analyzed_hdr, first_tests}
use route.Packet.Analyze.Header.{analyze_header}

written_le :
    (a : SendArgs) (w : Addressed)
    → write_address a.half_word (λ p. 0) a.tsi a.toi ≡ some w
    → w.hdrlen ≤ 20
unfolding write_address tsi16_toi16 tsi32_toi32 tsi16_toi48 tsi48_toi16 tsi48_toi48 tsi32_toi64
written_le a w e = ground arith

extensions_le : (a : SendArgs) (m : Buffer) (o : ℕ) → (add_extensions a (m, o)).1 ≤ o + 24
unfolding add_extensions add_fdt_extensions add_fti add_fdt_lct_he add_cenc_lct_he
    add_fti_0_2_128_130_lct_he add_fti_3_lct_he add_fti_129_lct_he
extensions_le a m o = ground arith

-- The byte of the version, as the receiver sees it, is the header length of the sender.
version-analyzed :
    (lp64 : Bool) (m m' : Buffer) (h : LctHdr) (n : ℕ)
    → m 0 ≡ swap_short (store_hdr m' h) 0
    → h.hdr_len ≡ u8 (n >>> 2)
    → n < 64
    → (analyzed_hdr lp64 m).version ≡ 0
unfolding analyzed_hdr swap_long load_hdr store_hdr swap_short
version-analyzed true m m' h n e l b = ground arith
version-analyzed false m m' h n e l b = ground arith

analyze_header-version :
    (fuel : ℕ) (lp64 rlc : Bool) (m : Buffer) (len : ℕ) (ch : Channel)
    → (analyzed_hdr lp64 m).version ≡ 0
    → analyze_header fuel lp64 rlc m len ch ≡ stop hdr_error
unfolding analyze_header first_tests
analyze_header-version fuel lp64 rlc m len ch e = ground arith

-- `analyze_packet` answers every packet whose header `send_unit` composes with a header error, in
-- whatever channel, on whatever length and whether `long` has 64 bits or 32: it takes the byte of
-- the header length for that of the version.
pub analyze_header-send_header :
    (a : SendArgs) (fuel : ℕ) (lp64 rlc : Bool) (len : ℕ) (ch : Channel) (m : Buffer) (hdrlen : ℕ)
    → send_header a ≡ some (m, hdrlen)
    → analyze_header fuel lp64 rlc m len ch ≡ stop hdr_error
analyze_header-send_header a fuel lp64 rlc len ch m hdrlen e =
    let (w, found, same) = send_header-Sent a m hdrlen e in
    let below = written_le a w found in
    let longer = extensions_le a w.buffer w.hdrlen in
    analyze_header-version fuel lp64 rlc m len ch (
      version-analyzed lp64 m _ _ (add_extensions a (w.buffer, w.hdrlen)).1 (same 0 (omega arith))
        refl (omega arith))

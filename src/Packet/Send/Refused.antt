-- ===== src/Packet/Send/Refused.antt =====
-- What `parse_packet` makes of a packet of `send_unit`.
use route.Base.{
  ℕ, ◌≤◌, ◌<◌, ◌≡◌, refl, arith, ap, sym, ◌∙◌, Option, none, some, Option-cases, inl, inr,
}
use route.Wire.{Buffer, swap_short, write32}
use route.Alc.{add_alc_fpi_2_128, add_alc_fpi_129, add_alc_fpi_0_130, add_alc_fpi_3}
use route.Lct.{
  add_fdt_lct_he, add_cenc_lct_he, add_fti_0_2_128_130_lct_he, add_fti_3_lct_he, add_fti_129_lct_he,
}
use route.Packet.Status.{stop, hdr_error}
use route.Packet.Header.{LctHdr, store_hdr, parsed_hdr, check_hdr}
use route.Packet.Parse.{Session, parse_packet}
use route.Packet.Send.{
  Addressed, write_address, tsi16_toi16, tsi32_toi32, tsi16_toi48, tsi48_toi16, tsi48_toi48,
  tsi32_toi64,
}
use route.Packet.Send.Compose.{
  SendArgs, Position, add_fdt_extensions, add_fti, add_extensions, add_payload_id, with_header,
  sent_hdr, send_header, composed,
}

-- The payload identifier stands behind the fixed header, of which it changes nothing.
payload_id-below :
    (a : SendArgs) (m : Buffer) (o p : ℕ) → p < o → (add_payload_id a (m, o)).0 p ≡ m p
unfolding add_payload_id add_alc_fpi_2_128 add_alc_fpi_129 add_alc_fpi_0_130 add_alc_fpi_3 write32
payload_id-below a m o p h = ground arith

-- Nothing is written before the end of the fixed header.
written_length :
    (a : SendArgs) (w : Addressed)
    → write_address a.half_word (λ p. 0) a.tsi a.toi ≡ some w
    → 8 ≤ w.hdrlen
unfolding write_address tsi16_toi16 tsi32_toi32 tsi16_toi48 tsi48_toi16 tsi48_toi48 tsi32_toi64
written_length a w e = ground arith

extensions_length : (a : SendArgs) (m : Buffer) (o : ℕ) → o ≤ (add_extensions a (m, o)).1
unfolding add_extensions add_fdt_extensions add_fti add_fdt_lct_he add_cenc_lct_he
    add_fti_0_2_128_130_lct_he add_fti_3_lct_he add_fti_129_lct_he
extensions_length a m o = ground arith

check_hdr-psi : (len : ℕ) (h : LctHdr) → h.psi ≡ 0 → check_hdr len h ≡ stop hdr_error
unfolding check_hdr
check_hdr-psi len h e = ground arith

-- The byte with the PSI field, seen through the exchange of the first two bytes.
psi-parsed :
    (m m' : Buffer) (h : LctHdr)
    → h.psi ≡ 0
    → h.flag_c ≡ 0
    → m' 3 ≡ swap_short (store_hdr m h) 3
    → (parsed_hdr m').psi ≡ 0
unfolding parsed_hdr store_hdr swap_short
psi-parsed m m' h p c e = ground arith

parse_packet-psi :
    (fuel : ℕ) (m : Buffer) (len : ℕ) (s : Session)
    → (parsed_hdr m).psi ≡ 0
    → parse_packet fuel m len s ≡ stop hdr_error
unfolding parse_packet
parse_packet-psi fuel m len s e = rw (check_hdr-psi len (parsed_hdr m) e) refl

-- What is sent, byte by byte of the fixed header.
abbrev pub Sent : SendArgs → Buffer → Addressed → Type 0
Sent a m w =
    let p = add_extensions a (w.buffer, w.hdrlen) in
    (q : ℕ) → q < 8 → m q ≡ swap_short (store_hdr p.0 (sent_hdr a w p.1)) q

pub send_header-Sent :
    (a : SendArgs) (m : Buffer) (hdrlen : ℕ)
    → send_header a ≡ some (m, hdrlen)
    → (w : Addressed) × (write_address a.half_word (λ p. 0) a.tsi a.toi ≡ some w) × Sent a m w
unfolding send_header
send_header-Sent a m hdrlen e =
    elim (Option-cases (write_address a.half_word (λ p. 0) a.tsi a.toi)) [
      | inl none' ↦ absurd (refused (rw none' at e))
      | inr (w, some') ↦
          let below = written_length a w some' in
          let longer = extensions_length a w.buffer w.hdrlen in
          let p = add_extensions a (w.buffer, w.hdrlen) in
          (
            w,
            some',
            λ q l.
                sym (same w q (rw some' at e))
                ∙ payload_id-below a (swap_short (store_hdr p.0 (sent_hdr a w p.1))) p.1 q
                    (omega arith),
          )
    ]
  where
    refused : composed a none ≡ some (m, hdrlen) → ⊥
    refused e = cc

    byte : ℕ → Option Position → ℕ
    byte q none = 0
    byte q (some p) = p.0 q

    same :
        (w : Addressed) (q : ℕ)
        → composed a (some w) ≡ some (m, hdrlen)
        → (add_payload_id a (with_header a w (add_extensions a (w.buffer, w.hdrlen)))).0 q ≡ m q
    same w q e = ap (λ (o : Option Position). byte q o) e

-- Every packet whose header `send_unit` composes is answered by `parse_packet` with a header
-- error, in whatever session and on whatever length: the sender leaves the PSI field at 0.
pub parse_packet-send_header :
    (a : SendArgs) (fuel len : ℕ) (s : Session) (m : Buffer) (hdrlen : ℕ)
    → send_header a ≡ some (m, hdrlen)
    → parse_packet fuel m len s ≡ stop hdr_error
parse_packet-send_header a fuel len s m hdrlen e =
    let (w, found, same) = send_header-Sent a m hdrlen e in
    parse_packet-psi fuel m len s (psi-parsed _ m _ refl refl (same 3 (omega arith)))

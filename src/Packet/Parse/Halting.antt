-- ===== src/Packet/Parse/Halting.antt =====
-- When `parse_packet` returns. 256 rounds of fuel are enough: the header length is a byte.
use route.Base.{
  ℕ, ◌-◌, ◌^◌, ◌<◌, ◌≡◌, ◌≢◌, ap, refl, arith, Bool, true, ltb, lt→ltb, Bool-cases, ◌>>>◌, inl, inr,
  not,
}
use route.Wire.{Buffer, swap_short}
use route.Packet.Status.{Result, ok, stop, ◌>>=◌, stop_if, hdr_error, looping}
use route.Packet.Header.{LctHdr, parsed_hdr, check_hdr}
use route.Packet.Address.{Address, read_address}
use route.Packet.Extension.{Ext}
use route.Packet.Extension.Termination.{
  Reaches, here, next, Stuck, read_extensions-halts, read_extensions-loops,
}
use route.Packet.PayloadId.{read_payload_id}
use route.Packet.Parse.{
  Session, parse_packet, finish, complete, check_end, read_header_extensions, supported, no_ext,
}

-- The loop of `parse_packet` over the extensions comes to one without length.
abbrev pub MeetsZeroLength : Buffer → Session → Type 0
MeetsZeroLength m s =
    (a : Address) × (read_address (parsed_hdr m) (swap_short m) s.tsi ≡ ok a)
    × Stuck (parsed_hdr m).codepoint (swap_short m)
        (no_ext a.hdrlen ((parsed_hdr m).hdr_len - (a.hdrlen >>> 2)))

bind-ne-looping :
    {A B : Type 0} (r : Result A) (f : A → Result B)
    → r ≢ stop looping
    → ((a : A) → r ≡ ok a → f a ≢ stop looping)
    → (r >>= f) ≢ stop looping
bind-ne-looping (ok a) f h k e = k a refl e
bind-ne-looping {B} (stop s) f h k e = h (ap stop (stopped e))
  where
    stopped : ◌≡◌ {A = Result B} (stop s) (stop looping) → s ≡ looping
    stopped e = cc

refuse-ne : (b : Bool) → stop_if b hdr_error ≢ stop looping
refuse-ne b e = ground arith

check_hdr-ne : (len : ℕ) (h : LctHdr) → check_hdr len h ≢ stop looping
unfolding check_hdr
check_hdr-ne len h e = ground arith

read_address-ne : (h : LctHdr) (m : Buffer) (tsi : ℕ) → read_address h m tsi ≢ stop looping
unfolding read_address
read_address-ne h m tsi e = ground arith

finish-ne :
    (len : ℕ) (h : LctHdr) (m : Buffer) (s : Session) (a : Address) (x : Ext)
    → finish len h m s a x ≢ stop looping
unfolding finish complete check_end read_payload_id
finish-ne len h m s a x e = ground arith

read_header_extensions-ne :
    (fuel : ℕ) (h : LctHdr) (m : Buffer) (hdrlen : ℕ)
    → h.hdr_len < fuel
    → ¬ (Stuck h.codepoint m (no_ext hdrlen (h.hdr_len - (hdrlen >>> 2))))
    → read_header_extensions fuel h m hdrlen ≢ stop looping
unfolding read_header_extensions
read_header_extensions-ne fuel h m hdrlen f free e =
    elim (Bool-cases (ltb (hdrlen >>> 2) h.hdr_len)) [
      | inl more ↦ read_extensions-halts fuel h.codepoint m _ (omega arith) free (rw more at e)
      | inr done ↦ ground arith
    ]

-- `parse_packet` returns on every packet whose header length is a byte and whose extensions do not
-- lead to one without length: 256 rounds of fuel never run out.
pub parse_packet-halts :
    (m : Buffer) (len : ℕ) (s : Session)
    → (parsed_hdr m).hdr_len < 2 ^ 8
    → ¬ (MeetsZeroLength m s)
    → parse_packet 256 m len s ≢ stop looping
unfolding parse_packet
parse_packet-halts m len s byte free =
    let h = parsed_hdr m in
    bind-ne-looping (check_hdr len h) _ (check_hdr-ne len h) λ u e₁.
      bind-ne-looping (read_address h (swap_short m) s.tsi) _ (read_address-ne h _ s.tsi) λ a e₂.
        bind-ne-looping (stop_if (not (supported h.codepoint)) hdr_error) _ (refuse-ne _) λ u' e₃.
          bind-ne-looping (read_header_extensions 256 h (swap_short m) a.hdrlen) _
            (read_header_extensions-ne 256 h _ a.hdrlen byte (λ z. free (a, e₂, z)))
            λ x e₄. finish-ne len h _ s a x

pub Reaches-pos :
    {fec : ℕ} {m : Buffer} {x y : Ext} → Reaches fec m x y → 0 < y.exthdrlen → 0 < x.exthdrlen
Reaches-pos here p = p
Reaches-pos (next q e r) p = q

header-loops :
    (fuel : ℕ) (h : LctHdr) (m : Buffer) (hdrlen : ℕ)
    → Stuck h.codepoint m (no_ext hdrlen (h.hdr_len - (hdrlen >>> 2)))
    → read_header_extensions fuel h m hdrlen ≡ stop looping
unfolding read_header_extensions
header-loops fuel h m hdrlen (y, r, p, z) =
    let pos = Reaches-pos r p in
    let more : ltb (hdrlen >>> 2) h.hdr_len ≡ true = lt→ltb _ _ (omega arith) in
    rw more (read_extensions-loops h.codepoint m fuel r p z)

-- A packet can make `parse_packet` loop for ever: one whose fixed header, identifiers and scheme
-- are accepted, and whose extensions lead to an EXT_NOP, EXT_AUTH or EXT_TIME with a length of 0.
pub parse_packet-loops :
    (fuel : ℕ) (m : Buffer) (len : ℕ) (s : Session)
    → check_hdr len (parsed_hdr m) ≡ ok tt
    → supported (parsed_hdr m).codepoint ≡ true
    → MeetsZeroLength m s
    → parse_packet fuel m len s ≡ stop looping
unfolding parse_packet
parse_packet-loops fuel m len s e₁ e₃ (a, e₂, z) =
    rw (e₁, e₂, e₃, header-loops fuel (parsed_hdr m) (swap_short m) a.hdrlen z)

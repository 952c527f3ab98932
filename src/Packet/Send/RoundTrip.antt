-- ===== src/Packet/Send/RoundTrip.antt =====
-- The identifiers of a packet, from `send_unit` to `parse_packet`.
use route.Base.{
  ℕ, ◌^◌, ◌≤◌, ◌<◌, ◌≡◌, ◌⊎◌, arith, bit_and, ◌>>>◌, Bool, true, false, none, some, u32, ltb, leb,
  ◌&&◌, ◌||◌, refl, if◌then◌else◌, Option,
}
use mathlib.Core.Path.{subst}
use route.Wire.{Buffer}
use route.Packet.Status.{ok, stop, hdr_error}
use route.Packet.Header.{LctHdr}
use route.Packet.Address.{read_address}
use route.Packet.Send.{max_16bits, max_32bits, max_48bits, max_64bits, between}
use route.Packet.Send.{Addressed, write_address, half_word_shapes, wide_shapes}
use route.Packet.Send.{tsi32_toi32, tsi32_toi64}
use route.Packet.Send.Shapes.{two_words, three_words}
use route.Packet.Send.Shapes.{
  ReadBack, tsi16_toi16-ReadBack, tsi32_toi32-ReadBack, tsi16_toi48-ReadBack, tsi48_toi16-ReadBack,
  tsi48_toi48-ReadBack, tsi32_toi64-ReadBack,
}

-- Nothing is asked of a refused combination.
abbrev Back : Option Addressed → ℕ → ℕ → Type 0
Back none tsi toi = Unit
Back (some a) tsi toi = ReadBack a tsi toi

Back-if :
    (b : Bool) (x : Addressed) (rest : Option Addressed) (tsi toi : ℕ)
    → (b ≡ true → ReadBack x tsi toi)
    → Back rest tsi toi
    → Back (if b then some x else rest) tsi toi
Back-if true x rest tsi toi f g = f refl
Back-if false x rest tsi toi f g = g

wide_shapes-Back : (m : Buffer) (tsi toi : ℕ) → Back (wide_shapes m tsi toi) tsi toi
unfolding wide_shapes
wide_shapes-Back m tsi toi =
    Back-if (leb tsi max_16bits && between max_32bits toi max_48bits) _ _ tsi toi
      (λ e. tsi16_toi48-ReadBack m tsi toi (ground arith) (ground arith))
      (Back-if (ltb toi max_16bits && between max_32bits tsi max_48bits) _ _ tsi toi
        (λ e. tsi48_toi16-ReadBack m tsi toi (ground arith) (ground arith))
        (Back-if (between max_32bits tsi max_48bits && between max_32bits toi max_48bits) _ _ tsi
          toi (λ e. tsi48_toi48-ReadBack m tsi toi (ground arith) (ground arith))
          (Back-if (between max_16bits tsi max_32bits && between max_32bits toi max_64bits) _ _ tsi
            toi (λ e. tsi32_toi64-ReadBack m tsi toi (ground arith) (ground arith))
            (Back-if (ltb tsi max_16bits && between max_48bits toi max_64bits) _ _ tsi toi
              (λ e. tsi32_toi64-ReadBack m tsi toi (ground arith) (ground arith)) tt))))

half_word_shapes-Back : (m : Buffer) (tsi toi : ℕ) → Back (half_word_shapes m tsi toi) tsi toi
unfolding half_word_shapes
half_word_shapes-Back m tsi toi =
    Back-if (leb tsi max_16bits && leb toi max_16bits) _ _ tsi toi
      (λ e. tsi16_toi16-ReadBack m tsi toi (ground arith) (ground arith))
      (Back-if
        ((leb tsi max_16bits && between max_16bits toi max_32bits)
          || (leb toi max_16bits && between max_16bits tsi max_32bits))
        _ _ tsi toi (λ e. tsi32_toi32-ReadBack m tsi toi (ground arith) (ground arith))
        (Back-if (between max_16bits tsi max_32bits && between max_16bits toi max_32bits) _ _ tsi
          toi (λ e. tsi32_toi32-ReadBack m tsi toi (ground arith) (ground arith))
          (wide_shapes-Back m tsi toi)))

write_address-Back :
    (half_word : Bool) (m : Buffer) (tsi toi : ℕ)
    → (half_word ≡ true) ⊎ (tsi < 2 ^ 32)
    → Back (write_address half_word m tsi toi) tsi toi
unfolding write_address
write_address-Back true m tsi toi fits = half_word_shapes-Back m tsi toi
write_address-Back false m tsi toi fits =
    Back-if (leb toi max_32bits) _ _ tsi toi
      (λ e. tsi32_toi32-ReadBack m tsi toi (ground arith) (ground arith))
      (Back-if (between max_32bits toi max_64bits) _ _ tsi toi
        (λ e. tsi32_toi64-ReadBack m tsi toi (ground arith) (ground arith)) tt)

-- A TSI and a TOI that `send_unit` writes, with half words or, if the TSI fits 32 bits, without, are
-- what the part of `parse_packet` that reads the addresses finds in the buffer, with the same header
-- length, if the flags of the header are those that were written and the session has that TSI. The
-- tests before it are not looked at.
pub read-write_address :
    (half_word : Bool) (m : Buffer) (tsi toi : ℕ) {a : Addressed} (h : LctHdr)
    → (half_word ≡ true) ⊎ (tsi < 2 ^ 32)
    → write_address half_word m tsi toi ≡ some a
    → h.flag_s ≡ a.s
    → h.flag_o ≡ a.o
    → h.flag_h ≡ a.h
    → read_address h a.buffer tsi ≡ ok (record { tsi = tsi; toi = toi; hdrlen = a.hdrlen })
read-write_address half_word m tsi toi {a} h fits e =
    subst (λ o. Back o tsi toi) e (write_address-Back half_word m tsi toi fits) h

-- Without half words the sender cuts a TSI to its lower 32 bits: a session that needs more refuses
-- the identifiers that were written for it.
pub long_tsi_refused :
    (m : Buffer) (tsi toi : ℕ) {a : Addressed} (h : LctHdr)
    → 2 ^ 32 ≤ tsi
    → write_address false m tsi toi ≡ some a
    → h.flag_s ≡ a.s
    → h.flag_o ≡ a.o
    → h.flag_h ≡ a.h
    → read_address h a.buffer tsi ≡ stop hdr_error
unfolding write_address tsi32_toi32 tsi32_toi64 read_address
long_tsi_refused m tsi toi h long e es eo eh = ground (
  arith,
  (two_words m (u32 tsi) (u32 toi) (omega arith) (omega arith)).0,
  (three_words m (u32 tsi) (u32 (bit_and (toi >>> 32) 0xFFFFFFFF)) (u32 toi) (omega arith)
      (omega arith) (omega arith)).0,
)

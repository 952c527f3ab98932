-- ===== src/Packet/Send/Shapes.antt =====
-- Each shape of the identifiers is read back by `parse_packet`.
use route.Base.{
  ℕ, ◌+◌, ◌*◌, ◌/◌, ◌%◌, ◌^◌, ◌<◌, ◌≡◌, ap, ◌∙◌, arith, bit_and, bit_or, u16, u32, ◌<<<◌, ◌>>>◌,
}
use route.Base.Bits.{bit_or-fields, bit_and-mask}
use route.Wire.{Buffer, read32, write32}
use route.Wire.Laws.{read32-write32_self, read32-write32_below}
use route.Lct.Words.{high_field}
use route.Packet.Status.{ok}
use route.Packet.Header.{LctHdr}
use route.Packet.Address.{read_address}
use route.Packet.Send.{Addressed, half_words}
use route.Packet.Send.{tsi16_toi16, tsi32_toi32, tsi16_toi48, tsi48_toi16, tsi48_toi48, tsi32_toi64}

-- The receiver finds the identifiers, and the end of the header, in what the sender wrote.
abbrev pub ReadBack : Addressed → ℕ → ℕ → Type 0
ReadBack a tsi toi =
    (h : LctHdr)
    → h.flag_s ≡ a.s
    → h.flag_o ≡ a.o
    → h.flag_h ≡ a.h
    → read_address h a.buffer tsi ≡ ok (record { tsi = tsi; toi = toi; hdrlen = a.hdrlen })

pub half_words-sum : (x y : ℕ) → half_words x y ≡ x * 2 ^ 16 + y % 2 ^ 16
half_words-sum x y =
    ap (λ (t : ℕ). bit_or (x <<< 16) t) (bit_and-mask 16 y)
    ∙ bit_or-fields 16 x (y % 2 ^ 16) (omega arith)

pub upper_half : (w : ℕ) → bit_and w 0xFFFF0000 >>> 16 ≡ w / 2 ^ 16 % 2 ^ 16
upper_half w = omega (arith, high_field 16 16 w)

-- The words behind the fixed header.
pub two_words :
    (m : Buffer) (a b : ℕ)
    → a < 2 ^ 32
    → b < 2 ^ 32
    → (read32 (write32 (write32 m 8 a) 12 b) 8 ≡ a) × (read32 (write32 (write32 m 8 a) 12 b) 12 ≡ b)
two_words m a b p q = (
  read32-write32_below (write32 m 8 a) 12 b 8 (omega arith) ∙ read32-write32_self m 8 a p,
  read32-write32_self (write32 m 8 a) 12 b q,
)

pub three_words :
    (m : Buffer) (a b c : ℕ)
    → a < 2 ^ 32
    → b < 2 ^ 32
    → c < 2 ^ 32
    → let m' = write32 (write32 (write32 m 8 a) 12 b) 16 c in
      (read32 m' 8 ≡ a) × (read32 m' 12 ≡ b) × (read32 m' 16 ≡ c)
three_words m a b c p q r = (
  read32-write32_below (write32 (write32 m 8 a) 12 b) 16 c 8 (omega arith)
      ∙ (two_words m a b p q).0,
  read32-write32_below (write32 (write32 m 8 a) 12 b) 16 c 12 (omega arith)
      ∙ (two_words m a b p q).1,
  read32-write32_self (write32 (write32 m 8 a) 12 b) 16 c r,
)

-- What `read_address` makes of the words, in each shape.
module _ (h : LctHdr) (m : Buffer) (tsi toi : ℕ) where
  abbrev Reads : ℕ → Type 0
  Reads n = read_address h m tsi ≡ ok (record { tsi = tsi; toi = toi; hdrlen = n })

  read_16_16 :
      h.flag_s ≡ 0
      → h.flag_o ≡ 0
      → h.flag_h ≡ 1
      → read32 m 8 ≡ tsi * 2 ^ 16 + toi
      → tsi < 2 ^ 16
      → toi < 2 ^ 16
      → Reads 12
  unfolding read_address
  read_16_16 es eo eh e p q =
      ground (arith, upper_half (tsi * 2 ^ 16 + toi), bit_and-mask 16 (tsi * 2 ^ 16 + toi))

  read_32_32 :
      h.flag_s ≡ 1 → h.flag_o ≡ 1 → h.flag_h ≡ 0 → read32 m 8 ≡ tsi → read32 m 12 ≡ toi → Reads 16
  unfolding read_address
  read_32_32 es eo eh e f = ground arith

  read_16_48 :
      h.flag_s ≡ 0
      → h.flag_o ≡ 1
      → h.flag_h ≡ 1
      → read32 m 8 ≡ tsi * 2 ^ 16 + toi / 2 ^ 32
      → read32 m 12 ≡ toi % 2 ^ 32
      → tsi < 2 ^ 16
      → toi < 2 ^ 48
      → Reads 16
  unfolding read_address
  read_16_48 es eo eh e f p q =
      let w = tsi * 2 ^ 16 + toi / 2 ^ 32 in ground (arith, upper_half w, bit_and-mask 16 w)

  read_48_16 :
      h.flag_s ≡ 1
      → h.flag_o ≡ 0
      → h.flag_h ≡ 1
      → read32 m 8 ≡ tsi / 2 ^ 16
      → read32 m 12 ≡ tsi % 2 ^ 16 * 2 ^ 16 + toi
      → tsi < 2 ^ 48
      → toi < 2 ^ 16
      → Reads 16
  unfolding read_address
  read_48_16 es eo eh e f p q =
      let w = tsi % 2 ^ 16 * 2 ^ 16 + toi in ground (arith, upper_half w, bit_and-mask 16 w)

  read_48_48 :
      h.flag_s ≡ 1
      → h.flag_o ≡ 1
      → h.flag_h ≡ 1
      → read32 m 8 ≡ tsi / 2 ^ 16
      → read32 m 12 ≡ tsi % 2 ^ 16 * 2 ^ 16 + toi / 2 ^ 32
      → read32 m 16 ≡ toi % 2 ^ 32
      → tsi < 2 ^ 48
      → toi < 2 ^ 48
      → Reads 20
  unfolding read_address
  read_48_48 es eo eh e f g p q =
      let w = tsi % 2 ^ 16 * 2 ^ 16 + toi / 2 ^ 32 in
      ground (arith, upper_half w, bit_and-mask 16 w)

  read_32_64 :
      h.flag_s ≡ 1
      → h.flag_o ≡ 2
      → h.flag_h ≡ 0
      → read32 m 8 ≡ tsi
      → read32 m 12 ≡ toi / 2 ^ 32
      → read32 m 16 ≡ toi % 2 ^ 32
      → toi < 2 ^ 64
      → Reads 20
  unfolding read_address
  read_32_64 es eo eh e f g p = ground arith

module _ (m : Buffer) (tsi toi : ℕ) where
  pub tsi16_toi16-ReadBack : tsi < 2 ^ 16 → toi < 2 ^ 16 → ReadBack (tsi16_toi16 m tsi toi) tsi toi
  unfolding tsi16_toi16
  tsi16_toi16-ReadBack p q h es eo eh =
      let sum = half_words-sum (u16 tsi) (u16 toi) in
      let word = read32-write32_self m 8 (half_words (u16 tsi) (u16 toi)) (omega arith) in
      read_16_16 h _ tsi toi es eo eh (omega arith) p q

  pub tsi32_toi32-ReadBack : tsi < 2 ^ 32 → toi < 2 ^ 32 → ReadBack (tsi32_toi32 m tsi toi) tsi toi
  unfolding tsi32_toi32
  tsi32_toi32-ReadBack p q h es eo eh =
      let words = two_words m (u32 tsi) (u32 toi) (omega arith) (omega arith) in
      read_32_32 h _ tsi toi es eo eh (omega arith) (omega arith)

  pub tsi16_toi48-ReadBack : tsi < 2 ^ 16 → toi < 2 ^ 48 → ReadBack (tsi16_toi48 m tsi toi) tsi toi
  unfolding tsi16_toi48
  tsi16_toi48-ReadBack p q h es eo eh =
      let half = u16 (bit_and (toi >>> 32) 0x0000FFFF) in
      let mask = bit_and-mask 16 (toi >>> 32) in
      let sum = half_words-sum (u16 tsi) half in
      let words = two_words m (half_words (u16 tsi) half) (u32 toi) (omega arith) (omega arith) in
      read_16_48 h _ tsi toi es eo eh (omega arith) (omega arith) p q

  pub tsi48_toi16-ReadBack : tsi < 2 ^ 48 → toi < 2 ^ 16 → ReadBack (tsi48_toi16 m tsi toi) tsi toi
  unfolding tsi48_toi16
  tsi48_toi16-ReadBack p q h es eo eh =
      let high = u32 (bit_and (tsi >>> 16) 0xFFFFFFFF) in
      let mask₁ = bit_and-mask 32 (tsi >>> 16) in
      let mask₂ = bit_and-mask 16 tsi in
      let half = u16 (bit_and tsi 0x0000FFFF) in
      let sum = half_words-sum half (u16 toi) in
      let words = two_words m high (half_words half (u16 toi)) (omega arith) (omega arith) in
      read_48_16 h _ tsi toi es eo eh (omega arith) (omega arith) p q

  pub tsi48_toi48-ReadBack : tsi < 2 ^ 48 → toi < 2 ^ 48 → ReadBack (tsi48_toi48 m tsi toi) tsi toi
  unfolding tsi48_toi48
  tsi48_toi48-ReadBack p q h es eo eh =
      let high = u32 (bit_and (tsi >>> 16) 0xFFFFFFFF) in
      let mask₁ = bit_and-mask 32 (tsi >>> 16) in
      let mask₂ = bit_and-mask 16 tsi in
      let mask₃ = bit_and-mask 16 (toi >>> 32) in
      let half₁ = u16 (bit_and tsi 0x0000FFFF) in
      let half₂ = u16 (bit_and (toi >>> 32) 0x0000FFFF) in
      let sum = half_words-sum half₁ half₂ in
      let words =
        three_words m high (half_words half₁ half₂) (u32 toi) (omega arith) (omega arith)
          (omega arith) in
      read_48_48 h _ tsi toi es eo eh (omega arith) (omega arith) (omega arith) p q

  pub tsi32_toi64-ReadBack : tsi < 2 ^ 32 → toi < 2 ^ 64 → ReadBack (tsi32_toi64 m tsi toi) tsi toi
  unfolding tsi32_toi64
  tsi32_toi64-ReadBack p q h es eo eh =
      let high = u32 (bit_and (toi >>> 32) 0xFFFFFFFF) in
      let mask = bit_and-mask 32 (toi >>> 32) in
      let words =
        three_words m (u32 tsi) high (u32 toi) (omega arith) (omega arith) (omega arith) in
      read_32_64 h _ tsi toi es eo eh (omega arith) (omega arith) (omega arith) q

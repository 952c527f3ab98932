-- ===== src/Packet/PayloadId/RoundTrip.antt =====
-- The payload identifiers from the sender's functions to the receiver's.
use route.Base.{ℕ, ◌+◌, ◌*◌, ◌%◌, ◌^◌, ◌≤◌, ◌<◌, ◌≡◌, ◌⊎◌, arith}
use route.Base.Bits.{bit_and-mask}
use route.Wire.{Buffer}
use route.Alc.{add_alc_fpi_2_128, add_alc_fpi_129, add_alc_fpi_0_130, add_alc_fpi_3}
use route.Alc.Words.{fpi_2_128_words, fpi_129_words, fpi_0_130_word, fpi_3_word}
use route.Packet.Status.{ok}
use route.Packet.PayloadId.{read_payload_id}

-- The sender's identifier of 64 bits, for the schemes 2 and 128, comes back whole when the packet
-- has the room for it.
pub read-add_alc_fpi_2_128 :
    (fec field len : ℕ) (m : Buffer) (o sbn es_id : ℕ)
    → (fec ≡ 2) ⊎ (fec ≡ 128)
    → o + 8 ≤ len
    → sbn < 2 ^ 32
    → es_id < 2 ^ 32
    → read_payload_id fec field len (add_alc_fpi_2_128 m o sbn es_id).0 o
      ≡ ok (record { sbn = sbn; esi = es_id; hdrlen = o + 8 })
unfolding read_payload_id
read-add_alc_fpi_2_128 fec field len m o sbn es_id scheme room p q =
    ground (arith, fpi_2_128_words m o sbn es_id p q)

-- For the schemes 0 and 130 the receiver gets the symbol number on 32 bits, and 0 for the block
-- number, whatever block the sender named.
pub read-add_alc_fpi_0_130 :
    (fec field len : ℕ) (m : Buffer) (o sbn es_id : ℕ)
    → (fec ≡ 0) ⊎ (fec ≡ 130)
    → o + 4 ≤ len
    → read_payload_id fec field len (add_alc_fpi_0_130 m o sbn es_id).0 o
      ≡ ok (record { sbn = 0; esi = es_id % 2 ^ 32; hdrlen = o + 4 })
unfolding read_payload_id
read-add_alc_fpi_0_130 fec field len m o sbn es_id scheme room =
    ground (arith, fpi_0_130_word m o sbn es_id)

-- For the scheme 129 the receiver gets the block number whole, and the symbol number on 16 bits.
pub read-add_alc_fpi_129 :
    (field len : ℕ) (m : Buffer) (o sbn sbl es_id : ℕ)
    → o + 8 ≤ len
    → sbn < 2 ^ 32
    → sbl < 2 ^ 16
    → read_payload_id 129 field len (add_alc_fpi_129 m o sbn sbl es_id).0 o
      ≡ ok (record { sbn = sbn; esi = es_id % 2 ^ 16; hdrlen = o + 8 })
unfolding read_payload_id
read-add_alc_fpi_129 field len m o sbn sbl es_id room p q =
    ground
      (arith, fpi_129_words m o sbn es_id sbl p q, bit_and-mask 16 (sbl * 2 ^ 16 + es_id % 2 ^ 16))

-- For the Reed-Solomon scheme with the sender's finite field parameter, 16, block and symbol numbers
-- below 2 ^ 16 come back, even from a packet that ends before them.
pub read-add_alc_fpi_3 :
    (len : ℕ) (m : Buffer) (o sbn es_id : ℕ)
    → sbn < 2 ^ 16
    → es_id < 2 ^ 16
    → read_payload_id 5 16 len (add_alc_fpi_3 m o sbn es_id 16).0 o
      ≡ ok (record { sbn = sbn; esi = es_id; hdrlen = o + 4 })
unfolding read_payload_id
read-add_alc_fpi_3 len m o sbn es_id p q =
    ground (arith, fpi_3_word m o sbn es_id, bit_and-mask 16 (sbn * 2 ^ 16 + es_id))

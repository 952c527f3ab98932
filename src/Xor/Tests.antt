-- ===== src/Xor/Tests.antt =====
-- A block of three symbols: encoded, received without its second symbol, and decoded.
use route.Base.{ℕ, ◌≡◌, refl, arith, some, List, [], ◌∷◌}
use route.Transport.{TransUnit, TransBlock, create_block}
use route.Xor.{encode_src_block, decode_src_block, encode_units, block_units, missing_symb, padded}
use route.Xor.Recovery.{missing_symb-encoded}

abbrev source : List ℕ
source = 1 ∷ 2 ∷ 3 ∷ 4 ∷ 5 ∷ []

abbrev unit_of : ℕ → ℕ → List ℕ → TransUnit
unit_of esi len bytes = record { esi = esi; len = len; bytes = bytes }

abbrev encoded : TransBlock
encoded = record create_block {
  unit_list =
      unit_of 0 2 (1 ∷ 2 ∷ [])
      ∷ unit_of 1 2 (3 ∷ 4 ∷ [])
      ∷ unit_of 2 1 (5 ∷ [])
      ∷ unit_of 3 2 (7 ∷ 6 ∷ [])
      ∷ [];
  sbn = 4;
  k = 3;
  n = 4;
}

encodes : encode_src_block source 4 2 ≡ encoded
unfolding encode_src_block encode_units
encodes = refl

abbrev received : TransBlock
received = record encoded {
  unit_list = unit_of 0 2 (1 ∷ 2 ∷ []) ∷ unit_of 2 1 (5 ∷ []) ∷ unit_of 3 2 (7 ∷ 6 ∷ []) ∷ [];
}

decodes : decode_src_block received 2 ≡ some (1 ∷ 2 ∷ 3 ∷ 4 ∷ 5 ∷ 0 ∷ [])
unfolding decode_src_block
decodes = refl

units_encoded : block_units 3 2 source ≡ encoded.unit_list
unfolding encode_units
units_encoded = refl

missing_symb-encoded_example :
    missing_symb 2 (unit_of 0 2 (1 ∷ 2 ∷ []) ∷ unit_of 2 1 (5 ∷ []) ∷ unit_of 3 2 (7 ∷ 6 ∷ []) ∷ [])
    ≡ padded 2 (3 ∷ 4 ∷ [])
missing_symb-encoded_example =
    missing_symb-encoded 2 3 source (unit_of 0 2 (1 ∷ 2 ∷ []) ∷ [])
      (unit_of 2 1 (5 ∷ []) ∷ unit_of 3 2 (7 ∷ 6 ∷ []) ∷ []) (unit_of 1 2 (3 ∷ 4 ∷ []))
      (omega arith) units_encoded

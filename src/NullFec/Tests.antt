-- ===== src/NullFec/Tests.antt =====
-- Five bytes in three units that arrive in the order in which they are sent, and in another.
use route.Base.{ℕ, ◌≡◌, refl, some, List, [], ◌∷◌, length}
use route.Transport.{TransUnit, TransBlock, create_block}
use route.NullFec.{null_fec_encode_src_block}

abbrev unit_of : ℕ → List ℕ → TransUnit
unit_of n bytes = record { esi = n; len = length bytes; bytes = bytes }

abbrev first : TransUnit
first = unit_of 0 (1 ∷ 2 ∷ [])

abbrev second : TransUnit
second = unit_of 1 (3 ∷ 4 ∷ [])

abbrev third : TransUnit
third = unit_of 2 (5 ∷ [])

abbrev five : List ℕ
five = 1 ∷ 2 ∷ 3 ∷ 4 ∷ 5 ∷ []

abbrev block : TransBlock
block = record create_block { unit_list = second ∷ third ∷ first ∷ []; sbn = 7; n = 3; k = 3 }

five_encoded : null_fec_encode_src_block five 7 2 ≡ some block
unfolding null_fec_encode_src_block
five_encoded = refl

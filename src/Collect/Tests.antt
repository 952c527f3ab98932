-- ===== src/Collect/Tests.antt =====
-- The theorems on the collection of objects at concrete inputs: a file of 11 symbols in 3 blocks,
-- and a block of 3 units that gets 4.
use route.Base.{ℕ, List, [], ◌∷◌, false}
use route.Transport.{TransUnit}
use route.Collect.{FecOti}
use route.Collect.Store.{StoreArgs}

-- 1000 bytes, in symbols of 100 bytes and 3 blocks: the code counts 11 symbols.
abbrev oti : FecOti
oti = record { fx = 1000; tx = 100; zx = 3 }

abbrev unit_of : ℕ → TransUnit
unit_of n = record { esi = n; len = 1; bytes = n ∷ [] }

abbrev args : StoreArgs
args = record {
  per_packet = 1;
  lost_packets = 0;
  fec_enc_id = 0;
  transfer_len = 3;
  max_sb_len = 64;
  es_len = 1;
  sb_len = 0;
  max_nb_of_es = 0;
  sbn = 0;
  sb_symcnt = 0;
  ch_id = 1;
  fec_oti = false;
}

abbrev units : List TransUnit
units = unit_of 7 ∷ unit_of 2 ∷ unit_of 9 ∷ unit_of 4 ∷ []

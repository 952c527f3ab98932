-- ===== src/Collect/Updated.antt =====
-- An object of one block in `analyze_packet` (alclib/alc_rx.c), with the update of its blocking
-- structure behind each unit.
use route.Base.{ℕ, ◌^◌, ◌≤◌, ◌<◌, ◌≡◌, ◌≢◌}
use route.Blocking.{BlockingStruct}
use route.Blocking.Division.{ceiling}
use route.Blocking.Single.{whole_block}
use route.Collect.Store.{StoreArgs}

abbrev pub symbols : StoreArgs → ℕ
symbols a = ceiling a.transfer_len a.es_len

-- The lengths of an object of one block, without repair symbols, of which units are counted.
pub record IsOneBlock (a : StoreArgs) : Type 0 where
  pub some_length : 0 < a.es_len
  pub some_bytes : 0 < a.transfer_len
  pub short : a.es_len < 2 ^ 32
  pub small : a.transfer_len < 2 ^ 63
  pub few : symbols a < 2 ^ 31
  pub bound : a.max_sb_len < 2 ^ 31
  pub one : symbols a ≤ a.max_sb_len
  pub no_repairs : a.lost_packets ≡ 0
  pub by_units : a.per_packet ≢ 0

module _ (a : StoreArgs) (h : IsOneBlock a) where
  abbrev bs : BlockingStruct
  bs = whole_block (symbols a) a.es_len

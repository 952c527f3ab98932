-- ===== src/Collect/Store.antt =====
-- The storing of a unit in `analyze_packet` (alclib/alc_rx.c), where the object is kept in memory
-- (`rx_memory_mode` is 0), and the tests on blocks and objects. The offset of the unit and what is
-- printed are left out.
use route.Base.{
  ℕ, ◌+◌, ◌-◌, ◌^◌, Bool, ◌&&◌, ◌||◌, not, Option, none, some, List, [], ◌∷◌, ltb, leb, ◌==◌,
  if◌then◌else◌, u32,
}
use route.Blocking.{BlockingStruct, update_blocking_structure}
use route.Packet.Extension.{simple_xor_fec_enc_id, rs_fec_enc_id, sb_sys_fec_enc_id}
use route.Transport.{TransUnit, TransBlock, TransObj, insert_unit}

unfoldable pub object_exist : ℕ → List TransObj → Option TransObj
object_exist toi [] = none
object_exist toi (to ∷ rest) = if to.toi == toi then some to else object_exist toi rest

unfoldable pub object_completed : TransObj → BlockingStruct → Bool
object_completed to bs = leb bs.n to.nb_of_ready_blocks

-- `per_packet` is `numEncSymbPerPacket`; units are counted unless it is 0.
unfoldable pub block_ready_to_decode : ℕ → TransBlock → Bool
block_ready_to_decode per_packet tb =
    if per_packet == 0
    then leb tb.k tb.nb_of_rx_symbols
    else tb.nb_of_rx_units == tb.k || tb.nb_of_rx_units == tb.max_k

-- What the call reads of the session, the channel and the packet; `fec_oti` is whether `fecOTI` is
-- given.
pub record StoreArgs : Type 0 where
  pub per_packet : ℕ
  pub lost_packets : ℕ
  pub fec_enc_id : ℕ
  pub transfer_len : ℕ
  pub max_sb_len : ℕ
  pub es_len : ℕ
  pub sb_len : ℕ
  pub max_nb_of_es : ℕ
  pub sbn : ℕ
  pub sb_symcnt : ℕ
  pub ch_id : ℕ
  pub fec_oti : Bool

abbrev pub raptor_fec_enc_id : ℕ
raptor_fec_enc_id = 1

abbrev pub block_len : StoreArgs → BlockingStruct → ℕ
block_len a bs = if ltb a.sbn bs.i then bs.a_large else bs.a_small

-- The first unit of a block gives it its number, and lengths that depend on the scheme.
abbrev pub begin_block : StoreArgs → BlockingStruct → TransBlock → TransBlock
begin_block a bs tb =
    let first = tb.nb_of_rx_units == 0 in
    let id = a.fec_enc_id in
    record tb {
      sbn = if first then a.sbn else tb.sbn;
      k =
          if first
            && (id == raptor_fec_enc_id || id == simple_xor_fec_enc_id || id == rs_fec_enc_id)
          then block_len a bs
          else if first && (id == sb_sys_fec_enc_id)
          then a.sb_len
          else tb.k;
      max_k =
          if first
            && (id == sb_sys_fec_enc_id || id == simple_xor_fec_enc_id || id == rs_fec_enc_id)
          then a.max_sb_len
          else tb.max_k;
      max_n =
          if first && (id == sb_sys_fec_enc_id || id == rs_fec_enc_id)
          then a.max_nb_of_es
          else tb.max_n;
    }

-- The number of units to expect, of an object of several blocks or of one.
unfoldable pub expect_units : StoreArgs → BlockingStruct → TransBlock → TransBlock
expect_units a bs tb =
    if ltb 1 bs.n
    then if a.sb_symcnt == 0
      then record tb { max_k = a.max_sb_len; k = bs.a_large }
      else record tb { max_k = a.max_sb_len; k = a.sb_symcnt }
    else record tb { k = bs.a_large; max_k = bs.a_large }

-- Repair symbols stand for units while the test is made.
unfoldable pub add_repairs : ℕ → TransBlock → TransBlock
add_repairs lost tb =
    if ltb 0 lost then record tb { nb_of_rx_units = u32 (tb.nb_of_rx_units + (lost - 1)) } else tb

unfoldable pub remove_repairs : ℕ → TransBlock → TransBlock
remove_repairs lost tb =
    if ltb 0 lost
    then record tb { nb_of_rx_units = u32 (tb.nb_of_rx_units + 2 ^ 32 - (lost - 1)) }
    else tb

-- After the insertion.
unfoldable pub count_ready : ℕ → ℕ × TransBlock × TransObj → TransBlock × TransObj
unfolding block_ready_to_decode
count_ready per_packet (result, tb, to) =
    if not (result == 1)
    then (let tb' = record tb { nb_of_rx_symbols = u32 (tb.nb_of_rx_symbols + 1) } in
        (
          tb',
          if block_ready_to_decode per_packet tb'
              then record to { nb_of_ready_blocks = u32 (to.nb_of_ready_blocks + 1) }
              else to,
        ))
    else (tb, to)

-- The block before the insertion, with the repair symbols in its count.
abbrev pub prepared : StoreArgs → BlockingStruct → TransBlock → TransBlock
prepared a bs tb = add_repairs a.lost_packets (expect_units a bs (begin_block a bs tb))

-- The block and the object after the unit. A block that is ready takes no further unit, and keeps
-- the repair symbols in its count.
unfoldable pub store_in :
    StoreArgs → BlockingStruct → TransUnit → TransBlock × TransObj → TransBlock × TransObj
unfolding expect_units add_repairs remove_repairs count_ready
store_in a bs tu (tb, to) =
    let tb' = prepared a bs tb in
    if not (block_ready_to_decode a.per_packet tb')
    then count_ready a.per_packet (insert_unit tu (remove_repairs a.lost_packets tb') to)
    else (tb', to)

-- Whether the unit is inserted.
unfoldable pub takes_unit : StoreArgs → BlockingStruct → TransUnit → TransBlock × TransObj → Bool
unfolding expect_units add_repairs remove_repairs block_ready_to_decode
takes_unit a bs tu (tb, to) =
    let tb' = prepared a bs tb in
    not (block_ready_to_decode a.per_packet tb')
    && not ((insert_unit tu (remove_repairs a.lost_packets tb') to).0 == 1)

-- The blocking structure of the object, the block and the object.
abbrev pub Storing : Type 0
Storing = BlockingStruct × TransBlock × TransObj

abbrev pub with_update : Option (BlockingStruct × Bool) → TransBlock × TransObj → Option Storing
with_update none q = none
with_update (some (bs, end_packet)) q = some (bs, q.0, q.1)

-- One unit, behind which the structure is updated; `none` is a division by 0 in the update.
unfoldable pub store_unit : StoreArgs → TransUnit → Storing → Option Storing
unfolding store_in takes_unit update_blocking_structure
store_unit a tu (bs, tb, to) =
    let q = store_in a bs tu (tb, to) in
    if takes_unit a bs tu (tb, to) && (ltb 1 q.0.k && not (a.ch_id == 0) && not a.fec_oti)
    then with_update (update_blocking_structure bs a.transfer_len a.max_sb_len a.es_len) q
    else some (bs, q.0, q.1)

abbrev pub store_next : Option Storing → (Storing → Option Storing) → Option Storing
store_next none next = none
store_next (some p) next = next p

-- One unit after another.
unfoldable pub store_all : StoreArgs → List TransUnit → Storing → Option Storing
unfolding store_unit
store_all a [] p = some p
store_all a (tu ∷ rest) p = store_next (store_unit a tu p) (store_all a rest)

-- ===== src/Transport.antt =====
-- Transport objects, blocks and units: alclib/transport.h and alclib/transport.c.
-- A doubly linked list is the list of its elements in order: `prev` is null exactly at the first,
-- `next` exactly at the last, and the loops walk from the first element on. A unit or an object
-- that is inserted stands in no list before.
pub mod Sorted
pub mod Insert
pub mod Order
pub mod Objects
pub mod Arrival
mod Tests
use route.Base.{
  ℕ, ◌+◌, ◌%◌, ◌^◌, Bool, true, false, Option, none, some, List, [], ◌∷◌, ltb, ◌==◌, if◌then◌else◌,
  u32, u64,
}

-- `trans_unit_t`; the bytes behind `data` are those of the symbol.
pub record TransUnit : Type 0 where
  pub esi : ℕ
  pub len : ℕ
  pub bytes : List ℕ

-- `trans_block_t`
pub record TransBlock : Type 0 where
  pub sbn : ℕ
  pub unit_list : List TransUnit
  pub nb_of_rx_units : ℕ
  pub n : ℕ
  pub k : ℕ
  pub max_k : ℕ
  pub max_n : ℕ
  pub finite_field : ℕ
  pub nb_of_rx_symbols : ℕ

-- `trans_obj_t`, without its files.
pub record TransObj : Type 0 where
  pub block_list : List TransBlock
  pub nb_of_ready_blocks : ℕ
  pub fec_enc_id : ℕ
  pub fec_inst_id : ℕ
  pub content_enc_algo : ℕ
  pub len : ℕ
  pub rx_bytes : ℕ
  pub toi : ℕ
  pub es_len : ℕ
  pub max_sb_len : ℕ

-- What `calloc` leaves.
abbrev pub create_block : TransBlock
create_block = record {
  sbn = 0;
  unit_list = [];
  nb_of_rx_units = 0;
  n = 0;
  k = 0;
  max_k = 0;
  max_n = 0;
  finite_field = 0;
  nb_of_rx_symbols = 0;
}

abbrev pub create_object : TransObj
create_object = record {
  block_list = [];
  nb_of_ready_blocks = 0;
  fec_enc_id = 0;
  fec_inst_id = 0;
  content_enc_algo = 0;
  len = 0;
  rx_bytes = 0;
  toi = 0;
  es_len = 0;
  max_sb_len = 0;
}

abbrev pub behind : TransUnit → Option (List TransUnit) → Option (List TransUnit)
behind x none = none
behind x (some xs) = some (x ∷ xs)

-- The walk of `insert_unit` from `tmp` on; `none` is a duplicate.
unfoldable pub place_unit : TransUnit → TransUnit → List TransUnit → Option (List TransUnit)
place_unit tu tmp [] =
    if ltb tu.esi tmp.esi
    then some (tu ∷ tmp ∷ [])
    else if tu.esi == tmp.esi
    then none
    else some (tmp ∷ tu ∷ [])
place_unit tu tmp (next ∷ rest) =
    if ltb tu.esi tmp.esi
    then some (tu ∷ tmp ∷ next ∷ rest)
    else if tu.esi == tmp.esi
    then none
    else behind tmp (place_unit tu next rest)

-- The counters of an insertion; the received bytes stay at the length of the object.
abbrev pub count_bytes : TransUnit → TransObj → TransObj
count_bytes tu to =
    let rx = u64 (to.rx_bytes + tu.len) in
    record to { rx_bytes = if ltb to.len rx then to.len else rx }

abbrev pub with_units : TransBlock → List TransUnit → TransBlock
with_units tb units = record tb { unit_list = units; nb_of_rx_units = u32 (tb.nb_of_rx_units + 1) }

-- The result, the block and the object after the call.
abbrev pub Inserted : Type 0
Inserted = ℕ × TransBlock × TransObj

abbrev pub placed : Option (List TransUnit) → TransUnit → TransBlock → TransObj → Inserted
placed none tu tb to = (1, tb, to)
placed (some units) tu tb to = (0, with_units tb units, count_bytes tu to)

abbrev pub place_from : TransUnit → List TransUnit → Option (List TransUnit)
place_from tu [] = some (tu ∷ [])
place_from tu (tmp ∷ rest) = place_unit tu tmp rest

unfoldable pub insert_unit : TransUnit → TransBlock → TransObj → Inserted
insert_unit tu tb to = placed (place_from tu tb.unit_list) tu tb to

-- The walk of `insert_object`; an object of the same TOI is no reason to stop.
unfoldable pub place_object : TransObj → TransObj → List TransObj → List TransObj
place_object to tmp [] = if ltb to.toi tmp.toi then to ∷ tmp ∷ [] else tmp ∷ to ∷ []
place_object to tmp (next ∷ rest) =
    if ltb to.toi tmp.toi then to ∷ tmp ∷ next ∷ rest else tmp ∷ place_object to next rest

abbrev pub insert_into : TransObj → List TransObj → List TransObj
insert_into to [] = to ∷ []
insert_into to (tmp ∷ rest) = place_object to tmp rest

-- The two lists of a session that hold objects.
pub record ObjectLists : Type 0 where
  pub fdt_list : List TransObj
  pub obj_list : List TransObj

unfoldable pub insert_object : TransObj → ObjectLists → ℕ → ObjectLists
insert_object to s type =
    if type == 0
    then record s { fdt_list = insert_into to s.fdt_list }
    else record s { obj_list = insert_into to s.obj_list }

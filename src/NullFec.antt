-- ===== src/NullFec.antt =====
-- Source blocks without redundancy: alclib/null_fec.c. A block is the list of its units in order,
-- as `create_units` links them; allocations succeed. Units are cut as those of alclib/xor_fec.c.
pub mod Delivery
pub mod Object
mod Tests
use route.Base.{
  ℕ, zero, suc, ◌+◌, ◌-◌, ◌/◌, ◌^◌, ◌%◌, Bool, true, false, ◌&&◌, not, ◌==◌, Option, none, some,
  List, [], ◌∷◌, ◌++◌, ltb, leb, if◌then◌else◌, u32, length, take, drop, replicate,
}
use route.Transport.{TransUnit, TransBlock, TransObj, create_block}
use route.Xor.{cut_unit, unit_count, all_bytes}

-- The units from `i` on, `n` of them.
unfoldable pub cut_units : ℕ → ℕ → ℕ → List ℕ → List TransUnit
cut_units zero i es_len left = []
cut_units (suc n) i es_len left =
    let tu = cut_unit i es_len left in tu ∷ cut_units n (i + 1) es_len (drop tu.len left)

-- Of several units the first is sent last: it may hold what is known only when a file is complete.
unfoldable pub encode_units : ℕ → ℕ → List ℕ → List TransUnit
unfolding cut_units
encode_units zero es_len ptr = []
encode_units (suc zero) es_len ptr = cut_units 1 0 es_len ptr
encode_units (suc (suc n)) es_len ptr =
    let first = cut_unit 0 es_len ptr in
    cut_units (suc n) 1 es_len (drop first.len ptr) ++ first ∷ []

-- `none` is the division by a symbol length of 0.
unfoldable pub null_fec_encode_src_block : List ℕ → ℕ → ℕ → Option TransBlock
unfolding encode_units
null_fec_encode_src_block ptr sbn es_len = elim es_len [
  | zero ↦ none
  | suc e ↦
      let nb_of_units = unit_count (length ptr) (suc e) in
      some (record create_block {
        unit_list = encode_units nb_of_units (suc e) ptr;
        sbn = sbn;
        n = nb_of_units;
        k = nb_of_units;
      })
]

-- The buffer and `block_len`; `none` is a write behind the end of the buffer, or a block without
-- units, whose last unit is freed. No unit has lost its data.
unfoldable pub null_fec_decode_src_block : TransBlock → ℕ → Option (List ℕ × ℕ)
null_fec_decode_src_block tb eslen =
    let bytes = all_bytes tb.unit_list in
    if leb (length bytes) (u32 eslen) && not (length tb.unit_list == 0)
    then some (bytes ++ replicate (u32 eslen - length bytes) 0, length bytes)
    else none

abbrev pub joined : List ℕ → Option (List ℕ) → Option (List ℕ)
joined bytes none = none
joined bytes (some rest) = some (bytes ++ rest)

-- What is copied of a decoded block, and then of the others.
abbrev pub copied : Option (List ℕ × ℕ) → ℕ → (ℕ → Option (List ℕ)) → Option (List ℕ)
copied none left others = none
copied (some (block, block_len)) left others =
    let n = if ltb left block_len then left else block_len in
    joined (take n block) (others (left - n))

-- The loop over the blocks, with `left` bytes to go.
unfoldable pub decode_blocks : List TransBlock → ℕ → ℕ → Option (List ℕ)
unfolding null_fec_decode_src_block
decode_blocks [] len left = some []
decode_blocks (tb ∷ rest) len left =
    copied (null_fec_decode_src_block tb len) left (decode_blocks rest len)

-- The buffer of `size` bytes and the length; `none` is a write behind its end.
abbrev pub filled : ℕ → ℕ → Option (List ℕ) → Option (List ℕ × ℕ)
filled size len none = none
filled size len (some bytes) =
    if leb (length bytes) size then some (bytes ++ replicate (size - length bytes) 0, len) else none

-- The object, whose buffer has been cleared, and its length; the size of the buffer is cut to 32
-- bits. The list has the `bs->N` blocks.
unfoldable pub null_fec_decode_object : TransObj → Option (List ℕ × ℕ)
unfolding decode_blocks
null_fec_decode_object to =
    filled (u32 (to.len + 1)) to.len (decode_blocks to.block_list to.len to.len)

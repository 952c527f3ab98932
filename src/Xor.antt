-- ===== src/Xor.antt =====
-- The exclusive-or code: alclib/xor_fec.c. A symbol is the list of its bytes, a block the list of
-- its units in order; allocations succeed, and no unit of a received block is longer than a symbol.
pub mod Symbols
pub mod Recovery
mod Tests
use route.Base.{
  ℕ, zero, suc, ◌+◌, ◌-◌, ◌*◌, ◌/◌, Bool, true, false, Option, none, some, List, [], ◌∷◌, ◌++◌, ltb,
  ◌==◌, if◌then◌else◌, bit_xor, length, take, drop, replicate, u32,
}
use route.Transport.{TransUnit, TransBlock, create_block}

-- `memset(padded_symb, 0, es_len)`, and the bytes copied over it.
abbrev pub padded : ℕ → List ℕ → List ℕ
padded zero bytes = []
padded (suc es_len) [] = 0 ∷ padded es_len []
padded (suc es_len) (b ∷ bytes) = b ∷ padded es_len bytes

-- The loop `*(p + j) = *(p + j) ^ *(q + j)`.
abbrev pub xor_symb : List ℕ → List ℕ → List ℕ
xor_symb [] q = []
xor_symb (a ∷ p) [] = a ∷ p
xor_symb (a ∷ p) (b ∷ q) = bit_xor a b ∷ xor_symb p q

-- The length of the unit at the start of what is left.
abbrev pub unit_len : ℕ → List ℕ → ℕ
unit_len es_len left = if ltb (length left) es_len then length left else es_len

abbrev pub cut_unit : ℕ → ℕ → List ℕ → TransUnit
cut_unit i es_len left = record {
  esi = i;
  len = unit_len es_len left;
  bytes = take (unit_len es_len left) left;
}

-- The first symbol is copied over the cleared parity symbol, the others are added to it.
abbrev pub next_parity : ℕ → ℕ → List ℕ → List ℕ → List ℕ
next_parity i es_len parity bytes =
    if i == 0 then padded es_len bytes else xor_symb parity (padded es_len bytes)

-- The units from `i` on, `n` of them, and the parity symbol behind the last.
unfoldable pub encode_units : ℕ → ℕ → ℕ → List ℕ → List ℕ → List TransUnit
encode_units zero i es_len left parity = record { esi = i; len = es_len; bytes = parity } ∷ []
encode_units (suc n) i es_len left parity =
    let tu = cut_unit i es_len left in
    tu ∷ encode_units n (i + 1) es_len (drop tu.len left) (next_parity i es_len parity tu.bytes)

-- `ceil` of the quotient, which a `double` holds exactly.
abbrev pub unit_count : ℕ → ℕ → ℕ
unit_count len es_len = (u32 len + (es_len - 1)) / es_len

-- Without data, the one unit stays as `create_units` cleared it.
abbrev pub block_units : ℕ → ℕ → List ℕ → List TransUnit
block_units zero es_len ptr = record { esi = 0; len = 0; bytes = [] } ∷ []
block_units (suc n) es_len ptr = encode_units (suc n) 0 es_len ptr (replicate es_len 0)

unfoldable pub encode_src_block : List ℕ → ℕ → ℕ → TransBlock
encode_src_block ptr sbn es_len =
    let nb_of_units = unit_count (length ptr) es_len in
    record create_block {
      unit_list = block_units nb_of_units es_len ptr;
      sbn = sbn;
      k = nb_of_units;
      n = u32 (nb_of_units + 1);
    }

-- The symbol number of the last unit; 0 where the source reads through a null pointer.
abbrev pub last_unit : List TransUnit → ℕ
last_unit [] = 0
last_unit (tu ∷ []) = tu.esi
last_unit (tu ∷ next ∷ rest) = last_unit (next ∷ rest)

-- The first gap: `expected` is `last_esi + 1`. `none` is the -1 of no gap.
abbrev pub missing_esi : ℕ → List TransUnit → Option ℕ
missing_esi expected [] = none
missing_esi expected (tu ∷ rest) =
    if tu.esi == expected then missing_esi (tu.esi + 1) rest else some (tu.esi - 1)

-- The symbols of the block, added to `symb`.
abbrev pub add_symbols : ℕ → List ℕ → List TransUnit → List ℕ
add_symbols es_len symb [] = symb
add_symbols es_len symb (tu ∷ rest) =
    add_symbols es_len (xor_symb symb (padded es_len tu.bytes)) rest

unfoldable pub missing_symb : ℕ → List TransUnit → List ℕ
missing_symb es_len units = add_symbols es_len (replicate es_len 0) units

-- The missing unit goes before the first unit of a larger number.
abbrev pub insert_missing : TransUnit → List TransUnit → List TransUnit
insert_missing u [] = []
insert_missing u (tu ∷ rest) =
    if ltb u.esi tu.esi then u ∷ tu ∷ rest else tu ∷ insert_missing u rest

-- The list is cut behind the unit `k - 1`, which is looked for among the first `j`; `none` is a
-- read through a null pointer.
abbrev pub without_parity : ℕ → ℕ → List TransUnit → Option (List TransUnit)
without_parity zero k units = some units
without_parity (suc j) k [] = none
without_parity (suc j) k (tu ∷ []) = none
without_parity (suc j) k (tu ∷ next ∷ rest) =
    if tu.esi + 1 == k
    then some (tu ∷ [])
    else elim (without_parity j k (next ∷ rest)) [ none ↦ none | some units ↦ some (tu ∷ units) ]

abbrev pub all_bytes : List TransUnit → List ℕ
all_bytes [] = []
all_bytes (tu ∷ rest) = tu.bytes ++ all_bytes rest

abbrev pub recovered : ℕ → ℕ → List TransUnit → Option (List TransUnit)
recovered es_len k units = elim (missing_esi 0 units) [
  | none ↦ none
  | some esi ↦
      without_parity k k (
        insert_missing (record { esi = esi; len = es_len; bytes = missing_symb es_len units })
          units)
]

-- The bytes of the block, in a buffer that was cleared.
unfoldable pub decode_src_block : TransBlock → ℕ → Option (List ℕ)
unfolding missing_symb
decode_src_block tb es_len =
    elim (if last_unit tb.unit_list == tb.k
      then recovered es_len tb.k tb.unit_list
      else some tb.unit_list) [
        | none ↦ none
        | some units ↦ some (padded (es_len * tb.k) (all_bytes units))
      ]

-- ===== src/Collect.antt =====
-- The collection of an object in `analyze_packet` of alclib/alc_rx.c, behind the label
-- `alc_object`: the place of a packet among the blocks of a file with repair symbols, and the
-- storing of a unit.
pub mod Position
pub mod Store
pub mod Ready
pub mod Updated
mod Tests
use route.Base.{
  ℕ, zero, suc, ◌+◌, ◌-◌, ◌*◌, ◌/◌, ◌%◌, ◌^◌, Bool, true, false, ◌||◌, Option, none, some, ltb,
  ◌==◌, if◌then◌else◌, bit_and, bit_or, u32, u64, ◌<<<◌,
}

-- What `fecOTI` says: the transfer length of the file, the symbol length and the number of blocks.
pub record FecOti : Type 0 where
  pub fx : ℕ
  pub tx : ℕ
  pub zx : ℕ

-- `symcnt`, `IL`, `IS`, `JL` and `JS`, on 32 bits.
pub record Lengths : Type 0 where
  pub symcnt : ℕ
  pub il : ℕ
  pub is : ℕ
  pub jl : ℕ
  pub js : ℕ

unfoldable pub symbol_count : FecOti → ℕ
symbol_count o = u32 (u32 (o.fx / o.tx) + 1)

unfoldable pub block_lengths : FecOti → Lengths
unfolding symbol_count
block_lengths o =
    let symcnt = symbol_count o in
    let is = symcnt / o.zx in
    let jl = symcnt - is * o.zx in
    record { symcnt = symcnt; il = u32 (is + 1); is = is; jl = jl; js = u32 (o.zx + 2 ^ 32 - jl) }

-- `sb_symcnt` in round `i`, from its value before; `i - JL` wraps around.
unfoldable pub round_length : Lengths → ℕ → ℕ → ℕ
round_length l i s =
    let s' = if ltb i l.jl then l.il else s in
    if ltb (u32 (i + 2 ^ 32 - l.jl)) l.js then l.is else s'

-- `sbnz`, `esiz` and `sb_symcnt`.
pub record Located : Type 0 where
  pub sbn : ℕ
  pub esi : ℕ
  pub sb_symcnt : ℕ

-- The loop, with as many rounds left as the first argument says. `esiz` falls below 0 where the
-- length is larger.
unfoldable pub refine : ℕ → Lengths → ℕ → ℕ → ℕ → Located
unfolding round_length
refine zero l i s esi = record { sbn = 0; esi = esi; sb_symcnt = s }
refine (suc left) l i s esi =
    let s' = round_length l i s in
    let rest = refine left l (suc i) s' (esi - s') in
    if ltb esi s' then record { sbn = i; esi = esi; sb_symcnt = s' } else rest

-- `none` is a division by zero. The symbol numbers are below 2 ^ 31.
unfoldable pub locate : FecOti → ℕ → Option Located
unfolding block_lengths refine
locate o start_offset =
    if o.tx == 0 || o.zx == 0
    then none
    else some (refine o.zx (block_lengths o) 0 0 (start_offset / o.tx))

-- `((sbnz & 0xff) << 24) | (esiz & 0x00ffffff)`, in front of the symbol.
unfoldable pub tag_of : Located → ℕ
tag_of p = bit_or (bit_and p.sbn 0xFF <<< 24) (bit_and p.esi 0x00FFFFFF)

-- The variables of the object that the place changes.
pub record Placing : Type 0 where
  pub start_offset : ℕ
  pub transfer_len : ℕ
  pub es_len : ℕ
  pub max_sb_len : ℕ
  pub sbn : ℕ
  pub esi : ℕ
  pub sb_symcnt : ℕ

-- Each symbol of the object is longer by its tag.
unfoldable pub place_packet : FecOti → Placing → Option Placing
unfolding locate
place_packet o p = elim (locate o p.start_offset) [
  | none ↦ none
  | some q ↦ some (record {
    start_offset = u32 (p.start_offset + p.start_offset / o.tx * 4);
    transfer_len = u64 (p.transfer_len + u64 ((p.transfer_len / o.tx + 1) * 4));
    es_len = (p.es_len + 4) % 2 ^ 16;
    max_sb_len = (block_lengths o).il;
    sbn = q.sbn;
    esi = q.esi;
    sb_symcnt = q.sb_symcnt;
  })
]

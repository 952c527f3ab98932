-- ===== src/Packet/Analyze/Source.antt =====
-- The payload identifier in `analyze_packet` of alclib/alc_rx.c: a start offset in a source flow,
-- a block and a symbol number in a repair flow.
use route.Base.{
  ℕ, ◌+◌, ◌*◌, ◌/◌, Bool, ◌||◌, Option, none, some, ltb, ◌==◌, if◌then◌else◌, bit_and, u32, ◌>>>◌,
}
use route.Wire.{Buffer, read32}
use route.Session.{WantedObj}
use route.Packet.Status.{Result, ok, stop, ◌>>=◌, ◌>>◌, stop_if, hdr_error, undefined}
use route.Packet.Analyze.Extensions.{Seen}

-- `start_offset / max_sb_len / es_len` on 32 bits.
unfoldable pub block_of : ℕ → ℕ → ℕ → Result ℕ
block_of start_offset max_sb_len es_len =
    if max_sb_len == 0 || es_len == 0
    then stop undefined
    else ok (start_offset / max_sb_len / es_len)

-- The block number of a source flow.
unfoldable pub source_sbn : Option WantedObj → Bool → Seen → ℕ → Result ℕ
unfolding block_of
source_sbn wanted_obj close_object x start_offset =
    let own = if x.es_len == 0 then ok 0 else block_of start_offset x.max_sb_len x.es_len in
    if ltb start_offset (u32 (x.max_sb_len * x.es_len)) then ok 0 else elim wanted_obj [
      | none ↦ own
      | some w ↦ if close_object then block_of start_offset w.oti.max_sb_len w.oti.es_len else own
    ]

-- What the packet carries.
pub record Carried : Type 0 where
  pub sbn : ℕ
  pub esi : ℕ
  pub start_offset : ℕ
  pub hdrlen : ℕ

unfoldable pub read_source : Option WantedObj → Bool → Seen → Buffer → Result Carried
unfolding source_sbn
read_source wanted_obj close_object x m = do
  let start_offset = read32 m x.hdrlen
  sbn ← source_sbn wanted_obj close_object x start_offset
  ok (record { sbn = sbn; esi = start_offset; start_offset = start_offset; hdrlen = x.hdrlen + 4 })

-- The start offset keeps its initial 0.
abbrev pub read_repair : Seen → Buffer → Carried
read_repair x m =
    let word = read32 m x.hdrlen in
    record {
      sbn = word >>> 24;
      esi = bit_and word 0x00FFFFFF;
      start_offset = 0;
      hdrlen = x.hdrlen + 4;
    }

unfoldable pub read_carried : ℕ → ℕ → Option WantedObj → Bool → Seen → Buffer → Result Carried
unfolding read_source
read_carried psi len wanted_obj close_object x m = do
  stop_if (ltb len (x.hdrlen + 4)) hdr_error
  if psi == 2 then read_source wanted_obj close_object x m else ok (read_repair x m)

-- ===== src/Packet/Analyze.antt =====
-- The header of a packet in `analyze_packet` of alclib/alc_rx.c, up to the collection of its
-- object: the function that the receiver runs. The fixed header, the test of the identifiers and
-- of the wanted object are here, the rest in the modules below.
pub mod Extensions
pub mod Source
pub mod Header
pub mod Refused
pub mod Accepted
pub mod Tests
use route.Base.{
  ℕ, ◌+◌, ◌*◌, ◌/◌, ◌%◌, ◌^◌, Bool, true, false, ◌&&◌, ◌||◌, not, Option, none, some, List, ltb,
  leb, ◌==◌, if◌then◌else◌, bit_and, u64, ◌<<<◌, ◌>>>◌,
}
use route.Wire.{Buffer, store8, read32}
use route.Session.{Oti, WantedObj, get_wanted_object}
use route.Packet.Status.{
  Result, ok, stop, ◌>>=◌, ◌>>◌, stop_if, hdr_error, empty_packet, waiting_fdt, nothing_to_do,
}
use route.Packet.Header.{LctHdr, sizeof_lct_hdr, load_hdr}
use route.Packet.Address.{Address, read_address}

-- What the function reads of the channel and of its session.
pub record Channel : Type 0 where
  pub ch_id : ℕ
  pub s_id : ℕ
  pub tsi : ℕ
  pub uses_rlc : Bool
  pub waiting_fdt_instance : Bool
  pub wanted_obj_list : List WantedObj
  pub rx_fdt_instance_list : List ℕ

-- `*(unsigned long*)p = ntohl(*(unsigned long*)p)`: four bytes are exchanged; where a `long` has 64
-- bits, the four bytes behind them, the congestion control field, are cleared.
unfoldable pub swap_long : Bool → Buffer → Buffer
unfolding store8
swap_long lp64 m =
    let m' = store8 (store8 (store8 (store8 m 0 (m 3)) 1 (m 2)) 2 (m 1)) 3 (m 0) in
    if lp64 then store8 (store8 (store8 (store8 m' 4 0) 5 0) 6 0) 7 0 else m'

unfoldable pub analyzed_hdr : Bool → Buffer → LctHdr
unfolding load_hdr swap_long
analyzed_hdr lp64 m = load_hdr (swap_long lp64 m)

-- The tests before the flag that closes the session.
unfoldable pub first_tests : ℕ → LctHdr → Result (Unit {0})
first_tests len h = do
  stop_if (ltb len sizeof_lct_hdr) hdr_error
  stop_if (not (h.version == 1)) hdr_error
  stop_if (not (h.psi == 2) && not (h.psi == 0)) hdr_error
  stop_if (not (h.reserved == 0)) hdr_error

-- `rlc` is whether `mad_rlc_analyze_cci` accepts the field.
unfoldable pub check_cci : Bool → Channel → LctHdr → Result (Unit {0})
check_cci rlc ch h = do
  stop_if (not (h.flag_c == 0)) hdr_error
  stop_if (not (h.cci == 0) && ch.uses_rlc && not rlc) hdr_error

-- The TSI that a packet has, in the shapes of `parse_packet`.
unfoldable pub packet_tsi : LctHdr → Buffer → Option ℕ
packet_tsi h m =
    if h.flag_h == 1
    then if h.flag_s == 0
      then some (bit_and (read32 m sizeof_lct_hdr) 0xFFFF0000 >>> 16)
      else some (
          u64 (
            u64 (read32 m sizeof_lct_hdr <<< 16)
            + (bit_and (read32 m (sizeof_lct_hdr + 4)) 0xFFFF0000 >>> 16)))
    else if h.flag_s == 1
    then some (read32 m sizeof_lct_hdr)
    else none

-- A wrong TSI is no header error here; otherwise the identifiers are read as in `parse_packet`.
unfoldable pub analyze_address : LctHdr → Buffer → ℕ → Result Address
unfolding packet_tsi
analyze_address h m session_tsi = elim (packet_tsi h m) [
  | none ↦ stop hdr_error
  | some tsi ↦ if tsi == session_tsi then read_address h m session_tsi else stop empty_packet
]

-- `(!tsi) == ch->ch_id`
abbrev pub different_channel : ℕ → Channel → Bool
different_channel tsi ch = if tsi == 0 then ch.ch_id == 1 else ch.ch_id == 0

-- The parameters of the object before the extensions are read.
pub record Known : Type 0 where
  pub es_len : ℕ
  pub max_sb_len : ℕ
  pub transfer_len : ℕ
  pub content_enc_algo : ℕ

abbrev pub unknown : Known
unknown = record { es_len = 0; max_sb_len = 0; transfer_len = 0; content_enc_algo = 0 }

-- `goto alc_object`, or on with the extensions.
pub data Next : Type 0 where
  collect : Next
  extensions : Known → Next

-- An object that is not wanted, and one that is.
abbrev pub unwanted : Channel → LctHdr → Result Next
unwanted ch h =
    if ch.waiting_fdt_instance
    then stop waiting_fdt
    else if ltb 0 ch.s_id && leb 7 h.codepoint
    then ok collect
    else if ltb 0 ch.s_id
    then ok (extensions unknown)
    else stop nothing_to_do

-- The symbol length stands for the block length too.
abbrev pub recall : WantedObj → Known
recall w = record {
  es_len = w.oti.es_len;
  max_sb_len = w.oti.es_len;
  transfer_len = w.oti.transfer_len;
  content_enc_algo = w.oti.content_enc_algo;
}

unfoldable pub find_wanted : Channel → LctHdr → Address → Result Next
unfolding get_wanted_object
find_wanted ch h a =
    if not (a.toi == 0) && (a.tsi == ch.ch_id)
    then elim (get_wanted_object ch.wanted_obj_list a.toi) [
      | none ↦ unwanted ch h
      | some w ↦ ok (extensions (recall w))
    ]
    else ok (extensions unknown)

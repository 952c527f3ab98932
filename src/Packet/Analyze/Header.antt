-- ===== src/Packet/Analyze/Header.antt =====
-- The parts of `analyze_packet` (alclib/alc_rx.c) in their order, up to the label `alc_object`.
use route.Base.{ℕ, ◌-◌, Bool, true, ◌&&◌, not, ltb, leb, ◌==◌, if◌then◌else◌, ◌>>>◌}
use route.Wire.{Buffer}
use route.Session.{get_wanted_object}
use route.Packet.Status.{Result, ok, ◌>>=◌, ◌>>◌, stop_if, hdr_error, empty_packet, dup_packet}
use route.Packet.Header.{LctHdr}
use route.Packet.Address.{Address}
use route.Packet.Parse.{is_received_instance}
use route.Packet.Analyze.{
  Channel, Known, unknown, Next, collect, extensions, swap_long, analyzed_hdr, first_tests,
  check_cci, analyze_address, different_channel, find_wanted,
}
use route.Packet.Analyze.Extensions.{Seen, see_extensions}
use route.Packet.Analyze.Source.{Carried, read_carried}

-- What the collection of the object starts from.
pub record Analyzed : Type 0 where
  pub toi : ℕ
  pub tsi : ℕ
  pub carried : Carried
  pub seen : Seen
  pub close_object : Bool
  pub waiting_fdt_instance : Bool

-- The variables before the loop over the extensions.
abbrev pub seen_from : Known → ℕ → ℕ → Seen
seen_from k hdrlen exthdrlen = record {
  hdrlen = hdrlen;
  exthdrlen = exthdrlen;
  hel = 0;
  fdt_instance_id = 0;
  content_enc_algo = k.content_enc_algo;
  transfer_len = k.transfer_len;
  fec_inst_id = 0;
  es_len = k.es_len;
  max_sb_len = k.max_sb_len;
}

unfoldable pub see_header_extensions : ℕ → ℕ → LctHdr → Buffer → Known → ℕ → Result Seen
unfolding see_extensions
see_header_extensions fuel len h m k hdrlen =
    if ltb (hdrlen >>> 2) h.hdr_len
    then see_extensions fuel len m (seen_from k hdrlen (h.hdr_len - (hdrlen >>> 2)))
    else ok (seen_from k hdrlen 0)

-- `close_object` is set in the shapes without half words alone.
abbrev pub closes_object : LctHdr → Bool
closes_object h = not (h.flag_h == 1) && (h.flag_b == 1)

-- A TOI of 0 on its own channel is an FDT instance.
abbrev pub is_fdt : Channel → Address → Bool
is_fdt ch a = (a.toi == 0) && (a.tsi == ch.ch_id)

unfoldable pub after_extensions : ℕ → Channel → LctHdr → Buffer → Address → Seen → Result Analyzed
after_extensions len ch h m a x = do
  stop_if (not (x.hdrlen >>> 2 == h.hdr_len)) hdr_error
  stop_if (x.hdrlen == len) empty_packet
  stop_if
      (is_fdt ch a
        && is_received_instance ch.rx_fdt_instance_list x.fdt_instance_id
        && leb 7 h.codepoint)
      dup_packet
  c ← read_carried h.psi len (get_wanted_object ch.wanted_obj_list a.toi) (closes_object h) x m
  ok (record {
    toi = a.toi;
    tsi = a.tsi;
    carried = c;
    seen = x;
    close_object = closes_object h;
    waiting_fdt_instance = if is_fdt ch a then true else ch.waiting_fdt_instance;
  })

-- The jump over the extensions: all that has not been read is 0.
abbrev pub jumped : Channel → LctHdr → Address → Analyzed
jumped ch h a = record {
  toi = a.toi;
  tsi = a.tsi;
  carried = record { sbn = 0; esi = 0; start_offset = 0; hdrlen = a.hdrlen };
  seen = seen_from unknown a.hdrlen 0;
  close_object = closes_object h;
  waiting_fdt_instance = ch.waiting_fdt_instance;
}

abbrev pub continue : ℕ → ℕ → Channel → LctHdr → Buffer → Address → Next → Result Analyzed
continue fuel len ch h m a collect = ok (jumped ch h a)
continue fuel len ch h m a (extensions k) =
    see_header_extensions fuel len h m k a.hdrlen >>= λ x. after_extensions len ch h m a x

unfoldable pub analyze_header : ℕ → Bool → Bool → Buffer → ℕ → Channel → Result Analyzed
analyze_header fuel lp64 rlc m₀ len ch = do
  let h = analyzed_hdr lp64 m₀
  let m = swap_long lp64 m₀
  first_tests len h
  check_cci rlc ch h
  a ← analyze_address h m ch.tsi
  stop_if (different_channel a.tsi ch) empty_packet
  next ← find_wanted ch h a
  continue fuel len ch h m a next

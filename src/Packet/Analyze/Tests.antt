-- ===== src/Packet/Analyze/Tests.antt =====
-- The theorems on `analyze_packet` at concrete inputs: a packet of the source flow, the same with
-- the flag that closes the session and another TSI, and a packet of `send_unit`.
use route.Base.{ℕ, ◌≡◌, refl, true, false, [], ◌∷◌}
use route.Wire.{Buffer, read32}
use route.Packet.Status.{ok}
use route.Packet.Address.{read_address}
use route.Packet.Tests.{buffer_of}
use route.Packet.Analyze.{
  Channel, unknown, analyzed_hdr, first_tests, check_cci, analyze_address, find_wanted,
}
use route.Packet.Analyze.Source.{read_carried}
use route.Packet.Analyze.Header.{
  Analyzed, seen_from, analyze_header, after_extensions, see_header_extensions,
}
use route.Packet.Analyze.Accepted.{IsCollected, analyze_header-IsCollected}

-- Channel 1 of a session, in which no object is wanted.
abbrev channel : Channel
channel = record {
  ch_id = 1;
  s_id = 1;
  tsi = 5;
  uses_rlc = true;
  waiting_fdt_instance = false;
  wanted_obj_list = [];
  rx_fdt_instance_list = [];
}

-- 20 bytes of header for a TSI and TOI 7, and one byte of payload.
abbrev source_packet : ℕ → ℕ → Buffer
source_packet flags tsi =
    buffer_of (
      18 ∷ flags ∷ 4 ∷ 0 ∷ 0 ∷ 0 ∷ 0 ∷ 0 ∷ 0 ∷ 0 ∷ 0 ∷ tsi ∷ 0 ∷ 0 ∷ 0 ∷ 7 ∷ 0 ∷ 0 ∷ 0 ∷ 9 ∷ 42
      ∷ [])

abbrev analyzed : Analyzed
analyzed = record {
  toi = 7;
  tsi = 5;
  carried = record { sbn = 0; esi = 9; start_offset = 9; hdrlen = 20 };
  seen = seen_from unknown 16 0;
  close_object = false;
  waiting_fdt_instance = false;
}

packet_analyzed : analyze_header 256 true true (source_packet 160 5) 21 channel ≡ ok analyzed
unfolding analyze_header first_tests analyzed_hdr check_cci analyze_address read_address find_wanted
    after_extensions see_header_extensions read32 read_carried
packet_analyzed = refl

analyze_header-IsCollected_example :
    IsCollected (analyzed_hdr true (source_packet 160 5)) 21 channel analyzed
analyze_header-IsCollected_example =
    analyze_header-IsCollected 256 true true (source_packet 160 5) 21 channel packet_analyzed

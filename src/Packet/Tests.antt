-- ===== src/Packet/Tests.antt =====
-- The theorems on packet headers at concrete inputs: an accepted packet, one that makes the
-- parser loop, and the parts of a sent one.
use route.Base.{
  ℕ, ◌+◌, ◌-◌, ◌*◌, ◌/◌, ◌%◌, ◌^◌, ◌<◌, ◌≡◌, ◌≢◌, refl, arith, inl, true, false, none, some, List,
  [], ◌∷◌, get_or,
}
use route.Wire.{Buffer, swap_short, write32, read32}
use route.Lct.{add_fti_0_2_128_130_lct_he}
use route.Packet.Status.{ok, stop, hdr_error, looping}
use route.Packet.Header.{LctHdr, parsed_hdr, check_hdr}
use route.Packet.Header.Layout.{FitsLayout}
use route.Packet.Address.{Address, read_address}
use route.Packet.Send.{write_address, tsi32_toi32}
use route.Packet.Send.RoundTrip.{read-write_address}
use route.Packet.Send.Compose.{SendArgs, Position, send_header}
use route.Packet.Send.Refused.{parse_packet-send_header}
use route.Packet.Extension.{read_extension}
use route.Packet.Extension.Length.{read-add_fti}
use route.Packet.Extension.Termination.{here}
use route.Packet.PayloadId.{read_payload_id}
use route.Packet.Parse.{
  Session, Parsed, parse_packet, no_ext, read_header_extensions, finish, check_end, complete,
}
use route.Packet.Parse.Laws.{IsAccepted, parse_packet-IsAccepted}
use route.Packet.Parse.Halting.{
  MeetsZeroLength, Reaches-pos, parse_packet-halts, parse_packet-loops,
}

abbrev zeros : Buffer
zeros p = 0

abbrev pub buffer_of : List ℕ → Buffer
buffer_of bytes p = get_or bytes p 0

-- 16 bytes of header for TSI 5 and TOI 7, the symbol number 9 and one byte of payload.
abbrev packet : Buffer
packet =
    buffer_of
      (4 ∷ 0 ∷ 160 ∷ 18 ∷ 0 ∷ 0 ∷ 0 ∷ 0 ∷ 0 ∷ 0 ∷ 0 ∷ 5 ∷ 0 ∷ 0 ∷ 0 ∷ 7 ∷ 0 ∷ 0 ∷ 0 ∷ 9 ∷ 42 ∷ [])

-- The same with a header length of 5 words, the last of them an EXT_NOP of no length.
abbrev stuck_packet : Buffer
stuck_packet = buffer_of (
    5 ∷ 0 ∷ 160 ∷ 18 ∷ 0 ∷ 0 ∷ 0 ∷ 0 ∷ 0 ∷ 0 ∷ 0 ∷ 5 ∷ 0 ∷ 0 ∷ 0 ∷ 7 ∷ 0 ∷ 0 ∷ 0 ∷ 0 ∷ 0 ∷ 0 ∷ 0 ∷ 9
    ∷ 42 ∷ [])

abbrev session : Session
session = record { tsi = 5; rx_fdt_instance_list = [] }

abbrev parsed : Parsed
parsed = record { hdrlen = 20; toi = 7; tsi = 5; sbn = 0; esi = 9 }

packet_parses : parse_packet 256 packet 21 session ≡ ok parsed
unfolding parse_packet check_hdr parsed_hdr read_address read32 read_header_extensions finish
    check_end read_payload_id complete
packet_parses = refl

parse_packet-IsAccepted_example : IsAccepted packet 21 session parsed
parse_packet-IsAccepted_example = parse_packet-IsAccepted 256 packet 21 session packet_parses

address_length :
    (a : Address) → read_address (parsed_hdr packet) (swap_short packet) 5 ≡ ok a → a.hdrlen ≡ 16
unfolding parsed_hdr read_address
address_length a e = ground arith

packet_free : ¬ (MeetsZeroLength packet session)
unfolding parsed_hdr
packet_free (a, e, (y, r, p, z)) =
    let len = address_length a e in let pos = Reaches-pos r p in omega arith

packet_byte : (parsed_hdr packet).hdr_len < 2 ^ 8
unfolding parsed_hdr
packet_byte = omega arith

parse_packet-halts_example : parse_packet 256 packet 21 session ≢ stop looping
parse_packet-halts_example = parse_packet-halts packet 21 session packet_byte packet_free

stuck_packet_stuck : MeetsZeroLength stuck_packet session
unfolding parsed_hdr read_address swap_short read32
stuck_packet_stuck =
    (record { tsi = 5; toi = 7; hdrlen = 16 }, refl, (_, here, omega arith, (omega arith, refl)))

parse_packet-loops_example : parse_packet 1000 stuck_packet 25 session ≡ stop looping
unfolding check_hdr parsed_hdr
parse_packet-loops_example =
    parse_packet-loops 1000 stuck_packet 25 session refl refl stuck_packet_stuck

abbrev header : LctHdr
header = record {
  codepoint = 0;
  hdr_len = 4;
  flag_b = 0;
  flag_a = 0;
  reserved = 0;
  flag_h = 0;
  flag_o = 1;
  flag_s = 1;
  psi = 2;
  flag_c = 0;
  version = 1;
  cci = 77;
}

header-FitsLayout : FitsLayout header
header-FitsLayout = record {
  flag_b_fits = omega arith;
  flag_a_fits = omega arith;
  reserved_fits = omega arith;
  flag_h_fits = omega arith;
  flag_o_fits = omega arith;
  flag_s_fits = omega arith;
  psi_fits = omega arith;
  flag_c_fits = omega arith;
  version_fits = omega arith;
  cci_fits = omega arith;
}

address_written : write_address true zeros 5 70000 ≡ some (tsi32_toi32 zeros 5 70000)
unfolding write_address
address_written = refl

read-write_address_example :
    read_address header (write32 (write32 zeros 8 5) 12 70000) 5
    ≡ ok (record { tsi = 5; toi = 70000; hdrlen = 16 })
unfolding tsi32_toi32
read-write_address_example =
    read-write_address true zeros 5 70000 header (inl refl) address_written refl refl refl

long_tsi_written : write_address false zeros (2 ^ 32) 7 ≡ some (tsi32_toi32 zeros (2 ^ 32) 7)
unfolding write_address
long_tsi_written = refl

read-add_fti_example :
    read_extension 0 (add_fti_0_2_128_130_lct_he zeros 16 5000000000 0 1400 64).0 (no_ext 16 4)
    ≡ ok (record (no_ext 16 4) {
      hdrlen = 16 + 16;
      exthdrlen = 4 - 4;
      hel = 4;
      transfer_len = 5000000000 / 2 ^ 32 * 2 ^ 16 + 5000000000 % 2 ^ 32;
      fec_inst_id = 0;
      es_len = 1400;
      max_sb_len = 64;
    })
read-add_fti_example =
    read-add_fti 0 zeros 5000000000 1400 64 (no_ext 16 4) (inl refl) (omega arith) (omega arith)
      (omega arith) (omega arith)

abbrev pub send_args : SendArgs
send_args = record {
  half_word = false;
  tsi = 5;
  toi = 0;
  fdt_instance_id = 1;
  zlib_fdt = true;
  use_fec_oti_ext_hdr = false;
  transfer_len = 3000;
  max_sb_len = 64;
  es_len = 1400;
  fec_enc_id = 0;
  fec_inst_id = 0;
  sbn = 0;
  k = 3;
  max_k = 64;
  max_n = 64;
  esi = 2;
}

abbrev pub sent_packet : Position
sent_packet = elim (send_header send_args) [ none ↦ (zeros, 0) | some p ↦ p ]

pub packet_sent : send_header send_args ≡ some sent_packet
unfolding send_header write_address
packet_sent = refl

parse_packet-send_header_example : parse_packet 256 sent_packet.0 1448 session ≡ stop hdr_error
parse_packet-send_header_example =
    parse_packet-send_header send_args 256 1448 session sent_packet.0 sent_packet.1 packet_sent

-- ===== src/Rlc/Tests.antt =====
-- The theorems on congestion control at concrete inputs.
use route.Base.{
  ℕ, ◌+◌, ◌≤◌, ◌≡◌, refl, arith, min, true, false, ◌%◌, ◌*◌, ◌^◌, Option, some, none, length, ltb,
  List, [], ◌∷◌, set, replicate, if◌then◌else◌,
}
use route.Rlc.{Late, Session, RlcHdr, Code, success, init_mad_rlc, max_channels}
use route.Rlc.Update.{update_layers, update_loss_list}
use route.Rlc.Receive.{analyze_cci}
use route.Rlc.Expiry.{IsDefault, analyze_cci-IsDefault}
use route.Rlc.Counts.{IsCounting}
use route.Rlc.Sender.{Sender, fill_headers}
use route.Rlc.Spacing.{IsBelowTop, IsSpaced, seq_of, fill_headers-IsSpaced}
use route.Rlc.Analysis.{analyze_cci-IsCounting}

-- A session of two layers; the first waits for packet `n` and misses those of `late`.
abbrev waiting : ℕ → List Late → Session
waiting n late = record {
  rlc = record init_mad_rlc {
    rx_first_pkt = replicate max_channels 0;
    rx_wait_for = set (replicate max_channels 0) 0 n;
    rx_missing = set (replicate max_channels []) 0 late;
    rx_nblate = length late;
  };
  nb_channel = 2;
  ch_list = 0 ∷ 1 ∷ [];
  lost_packets = 0;
}

abbrev two_late : List Late
two_late = record { seq_num = 9; losttime = 500 } ∷ record { seq_num = 7; losttime = 400 } ∷ []

-- A channel opens as long as the arrays have room for it.
abbrev open_channel : Session → Option Session
open_channel s =
    if ltb s.nb_channel (length s.rlc.rx_missing)
    then some (record s { nb_channel = s.nb_channel + 1 })
    else none

abbrev next_header : RlcHdr
next_header = record { sp = true; reserved = 85; layer = 1; seqid = 3 }

waiting-IsDefault : (n : ℕ) (late : List Late) → IsDefault (waiting n late)
unfolding init_mad_rlc
waiting-IsDefault n late = record { limit = refl; none_counted = refl; none_listed = refl }

analyze_cci-IsDefault_example :
    (code : Code) × (s' : Session) × (analyze_cci open_channel (waiting 10 two_late) next_header 450
      ≡ some (code, s'))
    × IsDefault s'
analyze_cci-IsDefault_example =
    analyze_cci-IsDefault open_channel (λ s s' e. ground arith) (waiting 10 two_late) next_header
      450 (waiting-IsDefault 10 two_late)

-- The session with a limit of five losses.
abbrev tolerant : Session
tolerant = record (waiting 10 two_late) {
  rlc = record (waiting 10 two_late).rlc { loss_limit = 5 };
}

waiting-IsCounting : IsCounting (waiting 10 two_late)
unfolding init_mad_rlc
waiting-IsCounting = record { counted = refl; channels = omega arith }

opened_channels :
    (s s' : Session) → open_channel s ≡ some s' → s'.nb_channel ≤ length s.rlc.rx_missing
opened_channels s s' e = ground arith

opened_rlc : (s s' : Session) → open_channel s ≡ some s' → s'.rlc ≡ s.rlc
opened_rlc s s' e = ground arith

-- What the header leaves.
abbrev after_header : Option (Code × Session) → Session
after_header none = waiting 10 two_late
after_header (some r) = r.1

analyze_runs :
    analyze_cci open_channel (waiting 10 two_late) next_header 100
    ≡ some (success, after_header (analyze_cci open_channel (waiting 10 two_late) next_header 100))
unfolding analyze_cci update_layers update_loss_list
analyze_runs = refl

analyze_cci-IsCounting_example :
    IsCounting (after_header (analyze_cci open_channel (waiting 10 two_late) next_header 100))
analyze_cci-IsCounting_example =
    analyze_cci-IsCounting open_channel opened_rlc opened_channels (waiting 10 two_late) next_header
      100 success _ waiting-IsCounting analyze_runs

-- A sender of two layers whose next number on the first is 65535.
abbrev sender : Sender
sender = record {
  sp_cycle = 1000;
  tx_layers_seq = 65535 ∷ 0 ∷ [];
  tx_next_sp = 500 ∷ 900 ∷ [];
  nb_channel = 2;
  start_sending = true ∷ false ∷ [];
  nb_sending_channel = 1;
}

sender-IsBelowTop : IsBelowTop sender 0
sender-IsBelowTop = record {
  below = omega arith;
  some_layer = omega arith;
  in_start = omega arith;
  in_seq = omega arith;
  in_next = omega arith;
}

abbrev sending_times : List ℕ
sending_times = 400 ∷ 600 ∷ 1599 ∷ 1600 ∷ []

fill_headers-IsSpaced_example :
    (hdrs : List RlcHdr) × (s' : Sender) × (fill_headers 0 sending_times sender ≡ some (hdrs, s'))
    × IsSpaced (1000 * min (2 ^ 0) (128 + 0)) 500 65535 sending_times hdrs
    × (seq_of s' 0 ≡ (65535 + 4) % 2 ^ 16)
fill_headers-IsSpaced_example =
    fill_headers-IsSpaced 0 sending_times sender sender-IsBelowTop (omega arith)

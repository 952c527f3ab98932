-- ===== src/Rlc.antt =====
-- The congestion control of a session: alclib/mad_rlc.h and the receiver of alclib/mad_rlc.c.
-- Times are whole milliseconds, and a call reads the clock once. Allocations succeed. An array
-- that a layer indexes is a list, and the late packets of a layer are listed from the newest on.
pub mod Update
pub mod Receive
pub mod Counts
pub mod Analysis
pub mod Gaps
pub mod Arrival
pub mod Expiry
pub mod Sender
pub mod Spacing
mod Tests
use route.Base.{
  ℕ, zero, suc, ◌+◌, ◌-◌, ◌%◌, ◌^◌, Bool, true, false, ◌&&◌, not, Option, none, some, List, [], ◌∷◌,
  map, ltb, leb, ◌==◌, if◌then◌else◌, get_or, set, replicate, u16, u32,
}

-- `late_list_t`
pub record Late : Type 0 where
  pub seq_num : ℕ
  pub losttime : ℕ

-- The receiver's part of `mad_rlc_t`; an element of `rx_lost` is its `pkt_remaining`.
pub record Rlc : Type 0 where
  pub pkt_timeout : ℕ
  pub deaf_period : ℕ
  pub late_accepted : ℕ
  pub loss_accepted : ℕ
  pub loss_limit : ℕ
  pub loss_timeout : ℕ
  pub rx_first_pkt : List ℕ
  pub rx_first_sp : List ℕ
  pub rx_wait_for : List ℕ
  pub rx_missing : List (List Late)
  pub rx_nblate_since_sp : ℕ
  pub rx_nblate : ℕ
  pub rx_nblost_since_sp : ℕ
  pub rx_nblost : ℕ
  pub rx_lost : List ℕ
  pub rx_deaf_wait : ℕ
  pub drop_highest_layer : Bool

-- What the congestion control reads and writes of a session; `ch_list` holds the `ch_id`s.
pub record Session : Type 0 where
  pub rlc : Rlc
  pub nb_channel : ℕ
  pub ch_list : List ℕ
  pub lost_packets : ℕ

-- `rlc_hdr_t`, the sequence number in the order of the host.
pub record RlcHdr : Type 0 where
  pub sp : Bool
  pub reserved : ℕ
  pub layer : ℕ
  pub seqid : ℕ

-- The results 0, -1 and -1000.
pub data Code : Type 0 where
  success : Code
  failure : Code
  drop_layer : Code

abbrev pub max_channels : ℕ
max_channels = 10

abbrev pub max_lates : ℕ
max_lates = 100

-- `RLC_LOSS_LIMIT`
abbrev pub default_loss_limit : ℕ
default_loss_limit = 1

-- `x--` on 16 and on 32 bits.
abbrev pub dec16 : ℕ → ℕ
dec16 n = u16 (n + (2 ^ 16 - 1))

abbrev pub dec32 : ℕ → ℕ
dec32 n = u32 (n + (2 ^ 32 - 1))

abbrev pub missing : Session → ℕ → List Late
missing s layer = get_or s.rlc.rx_missing layer []

abbrev pub wait_for : Session → ℕ → ℕ
wait_for s layer = get_or s.rlc.rx_wait_for layer 0

abbrev pub set_wait_for : Session → ℕ → ℕ → Session
set_wait_for s layer n = record s {
  rlc = record s.rlc { rx_wait_for = set s.rlc.rx_wait_for layer (u16 n) };
}

-- What `init_mad_rlc` leaves of a receiver.
unfoldable pub init_mad_rlc : Rlc
init_mad_rlc = record {
  pkt_timeout = 500;
  deaf_period = 10000;
  late_accepted = 0;
  loss_accepted = 0;
  loss_limit = default_loss_limit;
  loss_timeout = 20;
  rx_first_pkt = replicate max_channels 1;
  rx_first_sp = replicate max_channels 0;
  rx_wait_for = replicate max_channels 0;
  rx_missing = replicate max_channels [];
  rx_nblate_since_sp = 0;
  rx_nblate = 0;
  rx_nblost_since_sp = 0;
  rx_nblost = 0;
  rx_lost = [];
  rx_deaf_wait = 0;
  drop_highest_layer = false;
}

unfoldable pub free_lists : Rlc → Rlc
free_lists r = record r {
  rx_missing = map (λ (l : List Late). []) r.rx_missing;
  rx_lost = [];
  rx_nblost = 0;
  rx_nblate = 0;
  rx_nblost_since_sp = 0;
  rx_nblate_since_sp = 0;
}

unfoldable pub add_late : Session → ℕ → ℕ → ℕ → Code × Session
add_late s layer nseq now =
    let r = s.rlc in
    let new_missing : Late = record { seq_num = u16 nseq; losttime = now + r.pkt_timeout } in
    if ltb s.nb_channel layer then (failure, s) else (
      success,
      record s {
        rlc = record r {
          rx_missing = set r.rx_missing layer (new_missing ∷ missing s layer);
          rx_nblate = u16 (r.rx_nblate + 1);
          rx_nblate_since_sp = u16 (r.rx_nblate_since_sp + 1);
        };
        lost_packets = u32 (s.lost_packets + 1);
      },
    )

-- The list without its first element of that number; `none` when it has none.
abbrev pub unlink : ℕ → List Late → Option (List Late)
unlink nseq [] = none
unlink nseq (l ∷ ls) =
    if l.seq_num == nseq
    then some ls
    else elim (unlink nseq ls) [ none ↦ none | some rest ↦ some (l ∷ rest) ]

-- One late packet less on a layer, in both counters.
abbrev pub without_late : Session → ℕ → List Late → Session
without_late s layer rest =
    let r = s.rlc in
    record s {
      rlc = record r {
        rx_missing = set r.rx_missing layer rest;
        rx_nblate = dec16 r.rx_nblate;
        rx_nblate_since_sp = dec16 r.rx_nblate_since_sp;
      };
    }

abbrev pub removed : Session → ℕ → Option (List Late) → Code × Session
removed s layer none = (failure, s)
removed s layer (some rest) =
    (success, record (without_late s layer rest) { lost_packets = u32 (s.lost_packets + 1) })

unfoldable pub remove_late : Session → ℕ → ℕ → Code × Session
remove_late s layer nseq =
    if ltb s.nb_channel layer then (failure, s) else removed s layer (unlink nseq (missing s layer))

unfoldable pub add_lost : Session → ℕ → Code × Session
add_lost s now =
    let nblost = u16 (s.rlc.rx_nblost + 1) in
    let r = record s.rlc {
      rx_nblost = nblost;
      rx_nblost_since_sp = u16 (s.rlc.rx_nblost_since_sp + 1);
    } in
    let ch_id = get_or s.ch_list (s.nb_channel - 1) 0 in
    if leb r.loss_limit nblost
    then (
      drop_layer,
      record s {
        rlc = free_lists (record r {
          drop_highest_layer = true;
          rx_first_pkt = set r.rx_first_pkt ch_id 1;
          rx_deaf_wait = now + r.deaf_period;
        });
      },
    )
    else (success, record s { rlc = record r { rx_lost = r.loss_timeout ∷ r.rx_lost } })

-- ===== src/Rlc/Receive.antt =====
-- A received congestion control header: `mad_rlc_check_sequence`, `mad_rlc_process_rx_sp` and
-- `mad_rlc_analyze_cci` of alclib/mad_rlc.c.
use route.Base.{
  ℕ, zero, suc, ◌+◌, ◌-◌, Bool, ◌&&◌, not, Option, none, some, ltb, leb, ◌==◌, if◌then◌else◌,
  get_or, set, u16,
}
use route.Rlc.{
  Session, RlcHdr, Code, success, failure, max_lates, wait_for, set_wait_for, add_late, remove_late,
}
use route.Rlc.Update.{
  LateUpdate, updated, dropped, use_after_free, update_late_list, update_loss_list,
}

-- The body of both loops of `check_sequence`: at most `late_limit` numbers from `i` on, as long
-- as the loop's test `more` holds.
unfoldable pub add_lates : ℕ → (ℕ → Bool) → Session → ℕ → ℕ → ℕ → Session
add_lates zero more s layer i now = s
add_lates (suc late_limit) more s layer i now =
    let rest = add_lates late_limit more (add_late s layer i now).1 layer (i + 1) now in
    if more i then rest else s

-- `Delta1 < Delta2`
abbrev pub is_near : ℕ → Bool
is_near delta1 = ltb delta1 (65535 - delta1)

unfoldable pub check_sequence : Session → ℕ → ℕ → ℕ → Session
check_sequence s layer seqid now =
    let wait = wait_for s layer in
    if wait == seqid
    then set_wait_for s layer (wait + 1)
    else if ltb wait seqid
    then if is_near (seqid - wait)
      then set_wait_for (add_lates max_lates (λ i. ltb i seqid) s layer wait now) layer (seqid + 1)
      else (remove_late s layer seqid).1
    else if is_near (wait - seqid)
    then (remove_late s layer seqid).1
    else set_wait_for (add_lates max_lates (λ i. not (i + 1 == seqid)) s layer wait now) layer
        (seqid + 1)

-- A synchronisation point; `add_channel` computes the next address and opens the channel, which
-- it answers by the session with it.
unfoldable pub process_rx_sp : (Session → Option Session) → Session → Session
process_rx_sp add_channel s =
    if leb s.rlc.rx_nblost_since_sp s.rlc.loss_accepted
      && leb s.rlc.rx_nblate_since_sp s.rlc.late_accepted
    then elim (add_channel s) [
      | none ↦ s
      | some s' ↦ record s' {
        rlc = record s'.rlc { rx_nblost_since_sp = 0; rx_nblate_since_sp = 0 };
      }
    ]
    else s

-- The first packet of a layer only sets what is waited for.
abbrev pub sequence : Session → RlcHdr → ℕ → Session
sequence s hdr now =
    let r = s.rlc in
    if get_or r.rx_first_pkt hdr.layer 0 == 0
    then check_sequence s hdr.layer hdr.seqid now
    else record s {
      rlc = record r {
        rx_wait_for = set r.rx_wait_for hdr.layer (u16 (hdr.seqid + 1));
        rx_first_pkt = set r.rx_first_pkt hdr.layer 0;
      };
    }

abbrev pub sync_point : (Session → Option Session) → Session → RlcHdr → Session
sync_point add_channel s hdr =
    if hdr.sp && (hdr.layer + 1 == s.nb_channel)
    then if get_or s.rlc.rx_first_sp hdr.layer 0 == 1
      then record s { rlc = record s.rlc { rx_first_sp = set s.rlc.rx_first_sp hdr.layer 0 } }
      else process_rx_sp add_channel s
    else s

-- What follows the update of the two lists.
abbrev pub analyze_packet : (Session → Option Session) → Session → RlcHdr → ℕ → Session
analyze_packet add_channel s hdr now =
    if not (s.rlc.rx_deaf_wait == 0) && ltb now s.rlc.rx_deaf_wait
    then set_wait_for s hdr.layer (hdr.seqid + 1)
    else sync_point add_channel (sequence s hdr now) hdr

-- `none` when the update reads freed memory.
abbrev pub analyze_updated :
    (Session → Option Session) → LateUpdate → RlcHdr → ℕ → Option (Code × Session)
analyze_updated add_channel (updated s) hdr now =
    some (success, analyze_packet add_channel s hdr now)
analyze_updated add_channel (dropped s) hdr now =
    some (success, analyze_packet add_channel s hdr now)
analyze_updated add_channel use_after_free hdr now = none

unfoldable pub analyze_cci :
    (Session → Option Session) → Session → RlcHdr → ℕ → Option (Code × Session)
analyze_cci add_channel s hdr now =
    if not (hdr.reserved == 85)
    then some (failure, s)
    else if leb s.nb_channel hdr.layer
    then some (failure, s)
    else analyze_updated add_channel (update_late_list (update_loss_list s) now) hdr now

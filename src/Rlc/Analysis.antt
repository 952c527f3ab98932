-- ===== src/Rlc/Analysis.antt =====
-- `analyze_cci` keeps the counter of late packets at the length of the lists.
use route.Base.{
  ℕ, ◌+◌, ◌<◌, ◌≤◌, ◌≡◌, arith, ◌&&◌, not, Option, some, length, ltb, leb, ◌==◌, get_or, inl, inr,
  Bool-cases, Option-cases,
}
use mathlib.Core.Path.{subst}
use route.Rlc.{Session, RlcHdr, Code}
use route.Rlc.Update.{
  LateUpdate, updated, dropped, use_after_free, update_late_list, update_loss_list,
}
use route.Rlc.Receive.{
  sequence, sync_point, process_rx_sp, analyze_packet, analyze_updated, analyze_cci,
}
use route.Rlc.Counts.{
  IsCounting, Counts, set_wait_for-IsCounting, check_sequence-IsCounting, update_layers-Counts,
}

session_eq :
    {c code : Code} {t s : Session}
    → ◌≡◌ {A = Option (Code × Session)} (some (c, t)) (some (code, s))
    → t ≡ s
session_eq e = cc

-- Opening a channel adds at most channels for which there is room, and leaves the lists alone.
module _ (add_channel : Session → Option Session)
    (keeps : (s s' : Session) → add_channel s ≡ some s' → s'.rlc ≡ s.rlc)
    (room : (s s' : Session)
      → add_channel s ≡ some s'
      → s'.nb_channel ≤ length s.rlc.rx_missing) where
  process_rx_sp-IsCounting : (s : Session) → IsCounting s → IsCounting (process_rx_sp add_channel s)
  unfolding process_rx_sp
  process_rx_sp-IsCounting s v =
      elim (Bool-cases (
        leb s.rlc.rx_nblost_since_sp s.rlc.loss_accepted
        && leb s.rlc.rx_nblate_since_sp s.rlc.late_accepted)) [
          | inr e ↦ rw e v
          | inl e ↦ elim (Option-cases (add_channel s)) [
            | inl none' ↦ rw (e, none') v
            | inr (s', some') ↦
                rw (e, some')
                  (record {
                    counted = rw (keeps s s' some') v.counted;
                    channels = rw (keeps s s' some') (room s s' some');
                  })
          ]
        ]

  sequence-IsCounting :
      (s : Session) (hdr : RlcHdr) (now : ℕ)
      → hdr.layer < s.nb_channel
      → IsCounting s
      → IsCounting (sequence s hdr now)
  sequence-IsCounting s hdr now h v =
      elim (Bool-cases (get_or s.rlc.rx_first_pkt hdr.layer 0 == 0)) [
        | inl e ↦ rw e (check_sequence-IsCounting s hdr.layer hdr.seqid now h v)
        | inr e ↦ rw e (record { counted = v.counted; channels = v.channels })
      ]

  sync_point-IsCounting :
      (s : Session) (hdr : RlcHdr) → IsCounting s → IsCounting (sync_point add_channel s hdr)
  sync_point-IsCounting s hdr v = elim (Bool-cases (hdr.sp && (hdr.layer + 1 == s.nb_channel))) [
    | inr e ↦ rw e v
    | inl e ↦ elim (Bool-cases (get_or s.rlc.rx_first_sp hdr.layer 0 == 1)) [
      | inl f ↦ rw (e, f) (record { counted = v.counted; channels = v.channels })
      | inr f ↦ rw (e, f) (process_rx_sp-IsCounting s v)
    ]
  ]

  analyze_packet-IsCounting :
      (s : Session) (hdr : RlcHdr) (now : ℕ)
      → hdr.layer < s.nb_channel
      → IsCounting s
      → IsCounting (analyze_packet add_channel s hdr now)
  analyze_packet-IsCounting s hdr now h v =
      elim (Bool-cases (not (s.rlc.rx_deaf_wait == 0) && ltb now s.rlc.rx_deaf_wait)) [
        | inl e ↦ rw e (set_wait_for-IsCounting s hdr.layer _ v)
        | inr e ↦ rw e (sync_point-IsCounting _ hdr (sequence-IsCounting s hdr now h v))
      ]

  -- A received header, refused or processed, leaves the counter of late packets at their number, on
  -- 16 bits, and every channel within the arrays, where opening a channel leaves the lists alone and
  -- needs room in the arrays.
  pub analyze_cci-IsCounting :
      (s : Session) (hdr : RlcHdr) (now : ℕ) (code : Code) (s' : Session)
      → IsCounting s
      → analyze_cci add_channel s hdr now ≡ some (code, s')
      → IsCounting s'
  unfolding analyze_cci update_loss_list
  analyze_cci-IsCounting s hdr now code s' v e = elim (Bool-cases (not (hdr.reserved == 85))) [
    | inl a ↦ subst IsCounting (session_eq (rw a at e)) v
    | inr a ↦ elim (Bool-cases (leb s.nb_channel hdr.layer)) [
      | inl b ↦ subst IsCounting (session_eq (rw (a, b) at e)) v
      | inr b ↦
          finish (update_late_list (update_loss_list s) now)
            (update_layers-Counts s.nb_channel (update_loss_list s) 0 now (omega arith)
              (record { counted = v.counted; channels = v.channels }))
            (ground arith) (rw (a, b) at e)
    ]
  ]
    where
      finish :
          (u : LateUpdate)
          → Counts s.nb_channel u
          → hdr.layer < s.nb_channel
          → analyze_updated add_channel u hdr now ≡ some (code, s')
          → IsCounting s'
      finish (updated t) (w, n) h e =
          subst IsCounting (session_eq e) (analyze_packet-IsCounting t hdr now (rw n h) w)
      finish (dropped t) (w, n) h e =
          subst IsCounting (session_eq e) (analyze_packet-IsCounting t hdr now (rw n h) w)
      finish use_after_free w h e = absurd (ground arith)

-- ===== src/Rlc/Expiry.antt =====
-- `analyze_cci` and the freed element that `mad_rlc_update_late_list` reads.
use route.Base.{
  ℕ, zero, suc, ◌+◌, ◌<◌, ◌≡◌, refl, arith, ◌∙◌, Bool, false, not, Option, some, List, [], ltb, leb,
  ◌==◌, u16, inl, inr, Bool-cases, Option-cases,
}
use route.Rlc.{
  Late, Session, RlcHdr, Code, success, default_loss_limit, missing, wait_for, add_late,
  remove_late, add_lost, unlink, max_lates, free_lists,
}
use route.Rlc.Update.{
  LateUpdate, updated, dropped, use_after_free, update_layers, update_late_list, update_loss_list,
  expire, expired,
}
use route.Rlc.Receive.{
  add_lates, check_sequence, sequence, process_rx_sp, analyze_packet, analyze_updated, analyze_cci,
}

-- The losses of a session that `init_mad_rlc` has set up.
pub record IsDefault (s : Session) : Type 0 where
  pub limit : s.rlc.loss_limit ≡ default_loss_limit
  pub none_counted : s.rlc.rx_nblost ≡ 0
  pub none_listed : s.rlc.rx_lost ≡ []

-- An update that ends, in such a session.
abbrev Ends : LateUpdate → Type 0
Ends (updated s) = IsDefault s
Ends (dropped s) = IsDefault s
Ends use_after_free = ⊥

expired-Ends :
    (s : Session) (layer now : ℕ) (rest : List Late)
    → IsDefault s
    → Ends (expired s layer now (some rest))
unfolding add_lost free_lists
expired-Ends s layer now rest v =
    rw (v.none_counted, v.limit) (record { limit = refl; none_counted = refl; none_listed = refl })

update_layers-Ends :
    (n : ℕ) (s : Session) (layer now : ℕ) → IsDefault s → Ends (update_layers n s layer now)
unfolding update_layers
update_layers-Ends zero s layer now v = v
update_layers-Ends (suc n) s layer now v = elim (Option-cases (expire now (missing s layer))) [
  | inl none' ↦ rw (update_layers, none') (update_layers-Ends n s (layer + 1) now v)
  | inr (rest, some') ↦ rw (update_layers, some') (expired-Ends s layer now rest v)
]

update_loss_list-IsDefault : (s : Session) → IsDefault s → IsDefault (update_loss_list s)
unfolding update_loss_list
update_loss_list-IsDefault s v = record {
  limit = v.limit;
  none_counted = rw (v.none_listed) v.none_counted;
  none_listed = rw (v.none_listed) refl;
}

-- What the losses of a session are made of.
abbrev SameLosses : Session → Session → Type 0
SameLosses s s' =
    (s'.rlc.loss_limit ≡ s.rlc.loss_limit)
    × (s'.rlc.rx_nblost ≡ s.rlc.rx_nblost)
    × (s'.rlc.rx_lost ≡ s.rlc.rx_lost)

SameLosses-IsDefault : (s s' : Session) → SameLosses s s' → IsDefault s → IsDefault s'
SameLosses-IsDefault s s' (a, b, c) v = record {
  limit = a ∙ v.limit;
  none_counted = b ∙ v.none_counted;
  none_listed = c ∙ v.none_listed;
}

add_late-SameLosses : (s : Session) (layer i now : ℕ) → SameLosses s (add_late s layer i now).1
unfolding add_late
add_late-SameLosses s layer i now = elim (Bool-cases (ltb s.nb_channel layer)) [
  | inl e ↦ rw e (refl, refl, refl)
  | inr e ↦ rw e (refl, refl, refl)
]

remove_late-SameLosses : (s : Session) (layer i : ℕ) → SameLosses s (remove_late s layer i).1
unfolding remove_late
remove_late-SameLosses s layer i = elim (Bool-cases (ltb s.nb_channel layer)) [
  | inl e ↦ rw e (refl, refl, refl)
  | inr e ↦ elim (Option-cases (unlink i (missing s layer))) [
    | inl none' ↦ rw (e, none') (refl, refl, refl)
    | inr (rest, some') ↦ rw (e, some') (refl, refl, refl)
  ]
]

add_lates-SameLosses :
    (n : ℕ) (more : ℕ → Bool) (s : Session) (layer i now : ℕ)
    → SameLosses s (add_lates n more s layer i now)
unfolding add_lates
add_lates-SameLosses zero more s layer i now = (refl, refl, refl)
add_lates-SameLosses (suc n) more s layer i now = elim (Bool-cases (more i)) [
  | inl e ↦ rw e (
      let (a, b, c) = add_lates-SameLosses n more (add_late s layer i now).1 layer (i + 1) now in
      let (a', b', c') = add_late-SameLosses s layer i now in (a ∙ a', b ∙ b', c ∙ c'))
  | inr e ↦ rw e (refl, refl, refl)
]

check_sequence-SameLosses :
    (s : Session) (layer seqid now : ℕ) → SameLosses s (check_sequence s layer seqid now)
unfolding check_sequence
check_sequence-SameLosses s layer seqid now = ground (
  arith,
  add_lates-SameLosses max_lates (λ i. ltb i seqid) s layer (wait_for s layer) now,
  add_lates-SameLosses max_lates (λ i. not (i + 1 == seqid)) s layer (wait_for s layer) now,
  remove_late-SameLosses s layer seqid,
)

-- What opening a channel leaves alone.
module _ (add_channel : Session → Option Session)
    (keeps : (s s' : Session) → add_channel s ≡ some s' → SameLosses s s') where
  process_rx_sp-SameLosses : (s : Session) → SameLosses s (process_rx_sp add_channel s)
  unfolding process_rx_sp
  process_rx_sp-SameLosses s = elim (Option-cases (add_channel s)) [
    | inl none' ↦ rw none' (ground arith)
    | inr (s', some') ↦ rw some' (ground (arith, keeps s s' some'))
  ]

  analyze_packet-SameLosses :
      (s : Session) (hdr : RlcHdr) (now : ℕ) → SameLosses s (analyze_packet add_channel s hdr now)
  analyze_packet-SameLosses s hdr now = ground (
    arith,
    check_sequence-SameLosses s hdr.layer hdr.seqid now,
    process_rx_sp-SameLosses (sequence s hdr now),
  )

  -- With the loss limit that `init_mad_rlc` sets and no loss listed, and where opening a channel
  -- leaves the losses alone, each received header is processed to its end, without reading a freed
  -- element, and the losses stay that way.
  pub analyze_cci-IsDefault :
      (s : Session) (hdr : RlcHdr) (now : ℕ)
      → IsDefault s
      → (code : Code) × (s' : Session) × (analyze_cci add_channel s hdr now ≡ some (code, s'))
        × IsDefault s'
  unfolding analyze_cci
  analyze_cci-IsDefault s hdr now v = elim (Bool-cases (not (hdr.reserved == 85))) [
    | inl e ↦ rw e (_, s, refl, v)
    | inr e ↦ elim (Bool-cases (leb s.nb_channel hdr.layer)) [
      | inl f ↦ rw (e, f) (_, s, refl, v)
      | inr f ↦
          rw (e, f)
            (finish (update_late_list (update_loss_list s) now) (
              update_layers-Ends (update_loss_list s).nb_channel (update_loss_list s) 0 now
                (update_loss_list-IsDefault s v)))
    ]
  ]
    where
      finish :
          (u : LateUpdate)
          → Ends u
          → (code : Code) × (s' : Session) × (analyze_updated add_channel u hdr now
              ≡ some (code, s'))
            × IsDefault s'
      finish (updated t) w =
          (success, _, refl, SameLosses-IsDefault t _ (analyze_packet-SameLosses t hdr now) w)
      finish (dropped t) w =
          (success, _, refl, SameLosses-IsDefault t _ (analyze_packet-SameLosses t hdr now) w)
      finish use_after_free w = absurd w

-- When a late packet of the first layer has expired, and one more loss does not reach the loss
-- limit, the update of the late packets reads the element it has freed.
pub update_late_list-use_after_free :
    (s : Session) (now : ℕ) (rest : List Late)
    → 0 < s.nb_channel
    → expire now (missing s 0) ≡ some rest
    → s.rlc.rx_nblost + 1 < s.rlc.loss_limit
    → update_late_list s now ≡ use_after_free
unfolding update_layers add_lost
update_late_list-use_after_free s now rest some_channel some' below =
    first s.nb_channel some_channel
  where
    small : leb s.rlc.loss_limit (u16 (s.rlc.rx_nblost + 1)) ≡ false
    small = ground arith

    first : (n : ℕ) → 0 < n → update_layers n s 0 now ≡ use_after_free
    first zero h = absurd (omega arith)
    first (suc n) h = rw (update_layers, some') (rw small refl)

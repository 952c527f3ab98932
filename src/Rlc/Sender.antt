-- ===== src/Rlc/Sender.antt =====
-- The sender of alclib/mad_rlc.c: `mad_rlc_next_sp`, `mad_rlc_reset_tx_sp` and
-- `mad_rlc_fill_header`. Times are whole milliseconds.
use route.Base.{
  ℕ, zero, suc, ◌+◌, ◌*◌, ◌^◌, Bool, true, false, ◌||◌, not, Option, none, some, List, [], ◌∷◌, ltb,
  leb, ◌==◌, if◌then◌else◌, get_or, set, length, min, u16,
}
use route.Rlc.{RlcHdr, Code, success, failure, max_channels}

-- The sender's part of `mad_rlc_t`, and what it reads and writes of the session: the flag
-- `start_sending` of each channel that there is.
pub record Sender : Type 0 where
  pub sp_cycle : ℕ
  pub tx_layers_seq : List ℕ
  pub tx_next_sp : List ℕ
  pub nb_channel : ℕ
  pub start_sending : List Bool
  pub nb_sending_channel : ℕ

unfoldable pub next_sp : Sender → ℕ → ℕ → ℕ
next_sp s layer now = now + s.sp_cycle * min (2 ^ layer) (128 + layer)

abbrev pub next_sps : Sender → ℕ → ℕ → ℕ → List ℕ
next_sps s zero i now = []
next_sps s (suc n) i now = next_sp s i now ∷ next_sps s n (i + 1) now

unfoldable pub reset_tx_sp : Sender → ℕ → Sender
reset_tx_sp s now = record s { tx_next_sp = next_sps s max_channels 0 now }

abbrev pub starting : Sender → ℕ → Sender
starting s layer = record s {
  start_sending = set s.start_sending (layer + 1) true;
  nb_sending_channel = s.nb_sending_channel + 1;
}

-- The channel above `layer` starts to send; `none` reads it through a null pointer.
unfoldable pub start_next : Sender → ℕ → Option Sender
start_next s layer =
    if ltb (layer + 1) max_channels
    then if leb (length s.start_sending) (layer + 1)
      then none
      else if not (get_or s.start_sending (layer + 1) true)
      then some (starting s layer)
      else some s
    else some s

-- Whether a synchronisation point is due at the layer, and what it changes.
unfoldable pub tx_sync_point : Sender → ℕ → ℕ → Option (Bool × Sender)
unfolding start_next next_sp
tx_sync_point s layer now =
    if leb (get_or s.tx_next_sp layer 0) now
    then if layer + 1 == s.nb_channel
      then some (false, s)
      else elim (start_next (record s { tx_next_sp = set s.tx_next_sp layer (next_sp s layer now) })
          layer) [ none ↦ none | some s' ↦ some (true, s') ]
    else some (false, s)

abbrev pub sent_rlc_hdr : ℕ → ℕ → Bool → RlcHdr
sent_rlc_hdr layer seqid sp = record { sp = sp; reserved = 0x55; layer = layer; seqid = seqid }

abbrev pub with_point : ℕ → ℕ → Option (Bool × Sender) → Option (Code × Option RlcHdr × Sender)
with_point layer seqid none = none
with_point layer seqid (some (sp, s)) = some (success, some (sent_rlc_hdr layer seqid sp), s)

-- The result, the header where it is filled, and the session; `none` is an access behind the end of
-- an array or through a null pointer.
unfoldable pub fill_header : Sender → ℕ → ℕ → Option (Code × Option RlcHdr × Sender)
unfolding tx_sync_point
fill_header s layer now =
    if ltb max_channels layer || ltb s.nb_channel layer
    then some (failure, none, s)
    else if leb max_channels layer
    then none
    else (let seqid = get_or s.tx_layers_seq layer 0 in
        let s' = record s { tx_layers_seq = set s.tx_layers_seq layer (u16 (seqid + 1)) } in
        with_point layer seqid (tx_sync_point s' layer now))

abbrev pub header_before : RlcHdr → Option (List RlcHdr × Sender) → Option (List RlcHdr × Sender)
header_before hdr none = none
header_before hdr (some (hdrs, s)) = some (hdr ∷ hdrs, s)

abbrev pub with_filled :
    Option (Code × Option RlcHdr × Sender)
    → (Sender → Option (List RlcHdr × Sender))
    → Option (List RlcHdr × Sender)
with_filled none next = none
with_filled (some (code, none, s)) next = none
with_filled (some (code, some hdr, s)) next = header_before hdr (next s)

-- Packets of a layer, sent at the times given: their headers and the session behind them.
unfoldable pub fill_headers : ℕ → List ℕ → Sender → Option (List RlcHdr × Sender)
unfolding fill_header
fill_headers layer [] s = some ([], s)
fill_headers layer (now ∷ rest) s = with_filled (fill_header s layer now) (fill_headers layer rest)

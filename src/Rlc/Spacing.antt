-- ===== src/Rlc/Spacing.antt =====
-- The headers that `mad_rlc_fill_header` of alclib/mad_rlc.c gives the packets of a layer.
use route.Base.{
  ℕ, ◌+◌, ◌*◌, ◌%◌, ◌^◌, ◌<◌, ◌≤◌, ◌≡◌, ◌↔◌, refl, arith, ap, ◌∙◌, true, false, Option, some, List,
  [], ◌∷◌, length, get_or, set, u16, ltb, leb, ◌==◌, ◌||◌, Bool-cases, inl, inr, min,
  get_or-set_self, length-set, if◌then◌else◌,
}
use route.Rlc.{RlcHdr, Code, success, max_channels}
use route.Rlc.Sender.{
  Sender, start_next, tx_sync_point, sent_rlc_hdr, fill_header, next_sp, starting, fill_headers,
  with_filled, header_before,
}

abbrev pub seq_of : Sender → ℕ → ℕ
seq_of s layer = get_or s.tx_layers_seq layer 0

abbrev pub due_at : Sender → ℕ → ℕ
due_at s layer = get_or s.tx_next_sp layer 0

-- The time from one synchronisation point of the layer to the next.
abbrev pub spacing : Sender → ℕ → ℕ
spacing s layer = s.sp_cycle * min (2 ^ layer) (128 + layer)

-- The layer is one of the sender's channels, and not the last.
pub record IsBelowTop (s : Sender) (layer : ℕ) : Type 0 where
  pub below : layer + 1 < s.nb_channel
  pub some_layer : layer < 10
  pub in_start : s.nb_channel ≤ length s.start_sending
  pub in_seq : layer < length s.tx_layers_seq
  pub in_next : layer < length s.tx_next_sp

-- Headers of packets sent at these times: numbered from `n` on, and with a synchronisation point
-- exactly on those packets before which none was sent for the time `gap`; the first is due at `next`.
abbrev pub IsSpaced : (gap next n : ℕ) → List ℕ → List RlcHdr → Type 0
IsSpaced gap next n [] [] = Unit
IsSpaced gap next n [] (h ∷ hs) = ⊥
IsSpaced gap next n (t ∷ ts) [] = ⊥
IsSpaced gap next n (t ∷ ts) (h ∷ hs) =
    (h.seqid ≡ n % 2 ^ 16)
    × ((h.sp ≡ true) ↔ (next ≤ t))
    × IsSpaced gap (if h.sp then t + gap else next) (n + 1) ts hs

-- What a synchronisation point leaves.
record Kept (s s' : Sender) : Type 0 where
  same_seq : s'.tx_layers_seq ≡ s.tx_layers_seq
  same_next : s'.tx_next_sp ≡ s.tx_next_sp
  same_channels : s'.nb_channel ≡ s.nb_channel
  same_cycle : s'.sp_cycle ≡ s.sp_cycle
  same_start : length s'.start_sending ≡ length s.start_sending

kept : (s : Sender) → Kept s s
kept s = record {
  same_seq = refl;
  same_next = refl;
  same_channels = refl;
  same_cycle = refl;
  same_start = refl;
}

start_next-Kept :
    (s : Sender) (layer : ℕ)
    → layer + 1 < length s.start_sending
    → (s' : Sender) × (start_next s layer ≡ some s') × Kept s s'
unfolding start_next
start_next-Kept s layer l = elim (Bool-cases (ltb (layer + 1) max_channels)) [
  | inl below ↦ elim (Bool-cases (get_or s.start_sending (layer + 1) true)) [
    | inl sends ↦ (s, ground arith, kept s)
    | inr waits ↦ (
      starting s layer,
      ground arith,
      record {
        same_seq = refl;
        same_next = refl;
        same_channels = refl;
        same_cycle = refl;
        same_start = length-set s.start_sending (layer + 1) true;
      },
    )
  ]
  | inr top ↦ (s, ground arith, kept s)
]

-- One header.
record Advanced (s : Sender) (layer now : ℕ) : Type 0 where
  sender : Sender
  filled :
      fill_header s layer now
      ≡ some
          (success, some (sent_rlc_hdr layer (seq_of s layer) (leb (due_at s layer) now)), sender)
  next_seq : seq_of sender layer ≡ u16 (seq_of s layer + 1)
  next_due :
      due_at sender layer
      ≡ (if leb (due_at s layer) now then now + spacing s layer else due_at s layer)
  same_spacing : spacing sender layer ≡ spacing s layer
  still : IsBelowTop sender layer

module _ (s : Sender) (layer now : ℕ) (i : IsBelowTop s layer) where
  abbrev number : ℕ
  number = u16 (seq_of s layer + 1)

  abbrev counted : Sender
  counted = record s { tx_layers_seq = set s.tx_layers_seq layer number }

  abbrev pointed : Sender
  pointed = record counted { tx_next_sp = set s.tx_next_sp layer (next_sp s layer now) }

  in_range : (ltb max_channels layer || ltb s.nb_channel layer) ≡ false
  in_range = ground (arith, i.some_layer, i.below)

  in_array : leb max_channels layer ≡ false
  in_array = ground (arith, i.some_layer)

  not_top : (layer + 1 == s.nb_channel) ≡ false
  not_top = ground (arith, i.below)

  fill_header-Advanced : Advanced s layer now
  unfolding fill_header tx_sync_point next_sp
  fill_header-Advanced = elim (Bool-cases (leb (due_at s layer) now)) [
    | inl due ↦
        let (s', e, k) = start_next-Kept pointed layer (omega (arith, i.below, i.in_start)) in
        record {
          sender = s';
          filled = rw (in_range, in_array) (rw (due, not_top) (rw e refl));
          next_seq =
              ap (λ (l : List ℕ). get_or l layer 0) k.same_seq
              ∙ get_or-set_self s.tx_layers_seq layer number 0 i.in_seq;
          next_due =
              ap (λ (l : List ℕ). get_or l layer 0) k.same_next
              ∙ get_or-set_self s.tx_next_sp layer (next_sp s layer now) 0 i.in_next
              ∙ rw due refl;
          same_spacing = ap (λ (c : ℕ). c * min (2 ^ layer) (128 + layer)) k.same_cycle;
          still = record {
            below = rw k.same_channels i.below;
            some_layer = i.some_layer;
            in_start = rw (k.same_channels, k.same_start) i.in_start;
            in_seq = rw (k.same_seq, length-set s.tx_layers_seq layer number) i.in_seq;
            in_next =
                rw (k.same_next, length-set s.tx_next_sp layer (next_sp s layer now)) i.in_next;
          };
        }
    | inr early ↦ record {
      sender = counted;
      filled = rw (in_range, in_array) (rw early refl);
      next_seq = get_or-set_self s.tx_layers_seq layer number 0 i.in_seq;
      next_due = rw early refl;
      same_spacing = refl;
      still = record {
        below = i.below;
        some_layer = i.some_layer;
        in_start = i.in_start;
        in_seq = rw (length-set s.tx_layers_seq layer number) i.in_seq;
        in_next = i.in_next;
      };
    }
  ]

leb_iff : (a b : ℕ) → (leb a b ≡ true) ↔ (a ≤ b)
leb_iff a b = ((λ e. ground arith), λ l. ground arith)

filled-cons :
    (code : Code) (hdr : RlcHdr) (s : Sender) (next : Sender → Option (List RlcHdr × Sender))
    {hdrs : List RlcHdr} {s' : Sender}
    → next s ≡ some (hdrs, s')
    → with_filled (some (code, some hdr, s)) next ≡ some (hdr ∷ hdrs, s')
filled-cons code hdr s next e = ap (λ o. header_before hdr o) e

-- What a run of headers leaves.
record Run (s : Sender) (layer gap next n : ℕ) (times : List ℕ) : Type 0 where
  hdrs : List RlcHdr
  sender : Sender
  filled : fill_headers layer times s ≡ some (hdrs, sender)
  spaced : IsSpaced gap next n times hdrs
  last_seq : seq_of sender layer ≡ (n + length times) % 2 ^ 16

run :
    (layer gap : ℕ) (times : List ℕ) (next n : ℕ) (s : Sender)
    → IsBelowTop s layer
    → spacing s layer ≡ gap
    → due_at s layer ≡ next
    → seq_of s layer ≡ n % 2 ^ 16
    → Run s layer gap next n times
unfolding fill_headers
run layer gap [] next n s i g d q = record {
  hdrs = [];
  sender = s;
  filled = refl;
  spaced = tt;
  last_seq = omega (arith, q);
}
run layer gap (now ∷ rest) next n s i g d q =
    let a = fill_header-Advanced s layer now i in
    let sp = leb next now in
    let header : fill_header s layer now
        ≡ some (success, some (sent_rlc_hdr layer (seq_of s layer) sp), a.sender) =
      a.filled
      ∙ ap (λ m. some (success, some (sent_rlc_hdr layer (seq_of s layer) (leb m now)), a.sender))
          d in
    let due : due_at a.sender layer ≡ (if sp then now + gap else next) =
      a.next_due ∙ rw (g, d) refl in
    let r =
      run layer gap rest (if sp then now + gap else next) (n + 1) a.sender a.still
        (a.same_spacing ∙ g) due (omega (arith, a.next_seq, q)) in
    record {
      hdrs = sent_rlc_hdr layer (seq_of s layer) sp ∷ r.hdrs;
      sender = r.sender;
      filled =
          ap (λ o. with_filled o (fill_headers layer rest)) header
          ∙ filled-cons success (sent_rlc_hdr layer (seq_of s layer) sp) a.sender
              (fill_headers layer rest) r.filled;
      spaced = (q, leb_iff next now, r.spaced);
      last_seq = omega (arith, r.last_seq);
    }

-- For a layer below the last one, which the arrays hold, and packets that are sent on it at
-- whatever times: each gets a header; the headers have consecutive numbers on 16 bits, behind which
-- the sender goes on with the next; and a packet is a synchronisation point exactly if the time set
-- for the first point has come or, behind a point, `sp_cycle * min(2^layer, 128 + layer)`
-- milliseconds have passed since the last one.
pub fill_headers-IsSpaced :
    (layer : ℕ) (times : List ℕ) (s : Sender)
    → IsBelowTop s layer
    → seq_of s layer < 2 ^ 16
    → (hdrs : List RlcHdr) × (s' : Sender) × (fill_headers layer times s ≡ some (hdrs, s'))
      × IsSpaced
          (s.sp_cycle * min (2 ^ layer) (128 + layer))
          (due_at s layer)
          (seq_of s layer)
          times
          hdrs
      × (seq_of s' layer ≡ (seq_of s layer + length times) % 2 ^ 16)
fill_headers-IsSpaced layer times s i q =
    let r =
      run layer (spacing s layer) times (due_at s layer) (seq_of s layer) s i refl refl
        (omega (arith, q)) in
    (r.hdrs, r.sender, r.filled, r.spaced, r.last_seq)

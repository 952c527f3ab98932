-- ===== src/Sender/Blocks.antt =====
-- The source blocks of an object in flutelib/sender.c: what its loops cut and hand to `alc_send`.
use route.Base.{
  ℕ, zero, suc, ◌+◌, ◌*◌, ◌≤◌, ◌<◌, ◌≡◌, refl, ap, ◌∙◌, arith, Bool, ◌&&◌, List, [], ◌∷◌, ◌++◌,
  if◌then◌else◌, length, length-append, length-take, length-drop, take, drop, take-append-drop,
}
use route.Sender.{Scheme, TxSession, SourceBlock, Outcome, sent, exit_at, after, is_exiting}

-- The bytes of the blocks, one block after the other.
abbrev pub content : List SourceBlock → List ℕ
content [] = []
content (b ∷ blocks) = b.buf ++ content blocks

-- Blocks of one object, numbered from `sbn` on, none of which is empty or longer than allowed.
abbrev pub AreBlocks : ℕ → ℕ → Scheme → ℕ → List SourceBlock → Type 0
AreBlocks toi len scheme sbn [] = Unit
AreBlocks toi len scheme sbn (b ∷ blocks) =
    (b.sbn ≡ sbn)
    × (b.toi ≡ toi)
    × (b.transfer_len ≡ len)
    × (b.scheme ≡ scheme)
    × (0 < length b.buf)
    × (length b.buf ≤ scheme.es_len * scheme.max_sb_len)
    × AreBlocks toi len scheme (sbn + 1) blocks

-- Handing blocks to `alc_send`, one after the other, up to the first result that ends the loop;
-- the state of the session is tested before each block if `tested`.
abbrev pub send_all :
    {S : Type 0}
    → (SourceBlock → TxSession S → Outcome × TxSession S)
    → Bool
    → List SourceBlock
    → TxSession S
    → Outcome × TxSession S
send_all alc_send tested [] s = (sent, s)
send_all alc_send tested (b ∷ blocks) s =
    if tested && is_exiting s.state
    then (exit_at b.sbn, s)
    else after (alc_send b s) (send_all alc_send tested blocks)

-- `n` blocks from `sbn` on, of at most `size sbn` bytes.
abbrev pub cut_blocks : ℕ → ℕ → Scheme → (ℕ → ℕ) → ℕ → ℕ → List ℕ → List SourceBlock
cut_blocks toi len scheme size zero sbn left = []
cut_blocks toi len scheme size (suc n) sbn left =
    record { buf = take (size sbn) left; toi = toi; transfer_len = len; scheme = scheme; sbn = sbn }
    ∷ cut_blocks toi len scheme size n (sbn + 1) (drop (size sbn) left)

-- The bytes for which `n` blocks from `sbn` on have room.
abbrev pub room : (ℕ → ℕ) → ℕ → ℕ → ℕ
room size zero sbn = 0
room size (suc n) sbn = size sbn + room size n (sbn + 1)

module _ (toi len : ℕ) (scheme : Scheme) (size : ℕ → ℕ) where
  pub length-cut_blocks :
      (n sbn : ℕ) (left : List ℕ) → length (cut_blocks toi len scheme size n sbn left) ≡ n
  length-cut_blocks zero sbn left = refl
  length-cut_blocks (suc n) sbn left = ap suc (length-cut_blocks n (sbn + 1) (drop (size sbn) left))

  pub content-cut_blocks :
      (n sbn : ℕ) (left : List ℕ)
      → length left ≤ room size n sbn
      → content (cut_blocks toi len scheme size n sbn left) ≡ left
  content-cut_blocks zero sbn [] f = refl
  content-cut_blocks zero sbn (x ∷ left) f = absurd (omega arith)
  content-cut_blocks (suc n) sbn left f =
      ap (λ (t : List ℕ). take (size sbn) left ++ t)
        (content-cut_blocks n (sbn + 1) (drop (size sbn) left)
          (omega (arith, length-drop (size sbn) left)))
      ∙ take-append-drop (size sbn) left

  pub content-cut_blocks-le :
      (n sbn : ℕ) (left : List ℕ)
      → length (content (cut_blocks toi len scheme size n sbn left)) ≤ room size n sbn
  content-cut_blocks-le zero sbn left = omega arith
  content-cut_blocks-le (suc n) sbn left = omega (
    arith,
    length-append (take (size sbn) left)
        (content (cut_blocks toi len scheme size n (sbn + 1) (drop (size sbn) left))),
    length-take (size sbn) left,
    content-cut_blocks-le n (sbn + 1) (drop (size sbn) left),
  )

  -- Blocks of `q` bytes, of which even the last is needed.
  pub cut_blocks-AreBlocks :
      (q m n sbn : ℕ) (left : List ℕ)
      → ((k : ℕ) → k < m → size k ≡ q)
      → n + sbn ≤ m
      → q ≤ scheme.es_len * scheme.max_sb_len
      → 0 < q
      → n * q < length left + q
      → AreBlocks toi len scheme sbn (cut_blocks toi len scheme size n sbn left)
  cut_blocks-AreBlocks q m zero sbn left same below fits some_bytes needed = tt
  cut_blocks-AreBlocks q m (suc n) sbn left same below fits some_bytes needed =
      let e = same sbn (omega arith) in
      let taken = length-take (size sbn) left in
      let dropped = length-drop (size sbn) left in
      (
        refl,
        refl,
        refl,
        refl,
        omega arith,
        omega arith,
        cut_blocks-AreBlocks q m n (sbn + 1) (drop (size sbn) left) same (omega arith) fits
            some_bytes (omega arith),
      )

  pub room-eq :
      (q m n sbn : ℕ) → ((k : ℕ) → k < m → size k ≡ q) → n + sbn ≤ m → room size n sbn ≡ n * q
  room-eq q m zero sbn same below = omega arith
  room-eq q m (suc n) sbn same below =
      omega (arith, same sbn (omega arith), room-eq q m n (sbn + 1) same (omega arith))

-- ===== src/Sender/Loops.antt =====
-- The two loops of flutelib/sender.c, which keep what is left in numbers of their own, hand the
-- blocks of the object to `alc_send`.
use route.Base.{
  ℕ, zero, suc, ◌+◌, ◌-◌, ◌*◌, ◌^◌, ◌≤◌, ◌<◌, ◌≡◌, refl, ap, ◌∙◌, sym, arith, inl, inr, Bool, ◌⊎◌,
  true, false, Option, none, some, List, [], ◌∷◌, if◌then◌else◌, u32, length, length-take,
  length-drop, take, drop, Bool-cases, take_all,
}
use route.Text.{codes, equal_refl}
use route.Blocking.{BlockingStruct}
use route.Fdt.{File}
use route.Sender.{
  Scheme, TxSession, SourceBlock, Outcome, sent, failed, exiting, exiting_freed, undefined, after,
  no_buffer, within, int_ltb, block_bytes, send_fdt_blocks, send_file_blocks, send_read,
}
use route.Sender.Blocks.{send_all, cut_blocks}

-- What follows a call counts only as a function of the state.
after-same :
    {T : Type 0} (o : Outcome × T) (f g : T → Outcome × T)
    → ((s : T) → f s ≡ g s)
    → after o f ≡ after o g
after-same (sent, s) f g same = same s
after-same (failed, s) f g same = refl
after-same (exiting, s) f g same = refl
after-same (exiting_freed, s) f g same = refl
after-same (undefined, s) f g same = refl

drop_all : (n : ℕ) (xs : List ℕ) → length xs ≤ n → drop n xs ≡ []
drop_all zero [] h = refl
drop_all zero (x ∷ xs) h = absurd (omega arith)
drop_all (suc n) [] h = refl
drop_all (suc n) (x ∷ xs) h = drop_all n xs (omega arith)

-- The number of bytes of a block.
abbrev chosen : ℕ → ℕ → ℕ
chosen left size = if int_ltb left size then left else size

chosen-le : (left size : ℕ) → left < 2 ^ 31 → size < 2 ^ 31 → chosen left size ≤ left
chosen-le left size f g = ground arith

take-chosen :
    (size : ℕ) (xs : List ℕ)
    → length xs < 2 ^ 31
    → size < 2 ^ 31
    → take (chosen (length xs) size) xs ≡ take size xs
take-chosen size xs f g = elim (Bool-cases (int_ltb (length xs) size)) [
  | inl e ↦ rw e (take_all (length xs) xs (omega arith) ∙ sym (take_all size xs (ground arith)))
  | inr e ↦ rw e refl
]

drop-chosen :
    (size : ℕ) (xs : List ℕ)
    → length xs < 2 ^ 31
    → size < 2 ^ 31
    → drop (chosen (length xs) size) xs ≡ drop size xs
drop-chosen size xs f g = elim (Bool-cases (int_ltb (length xs) size)) [
  | inl e ↦ rw e (drop_all (length xs) xs (omega arith) ∙ sym (drop_all size xs (ground arith)))
  | inr e ↦ rw e refl
]

left-chosen :
    (size : ℕ) (xs : List ℕ)
    → length xs < 2 ^ 31
    → size < 2 ^ 31
    → u32 (length xs + (2 ^ 32 - chosen (length xs) size)) ≡ length (drop size xs)
left-chosen size xs f g =
    let few = chosen-le (length xs) size f g in
    let dropped = length-drop (chosen (length xs) size) xs in
    let same = ap length (drop-chosen size xs f g) in omega arith

within-chosen :
    (size left : ℕ) → left < 2 ^ 31 → size < 2 ^ 31 → within (chosen left size) left ≡ true
within-chosen size left f g = ground (arith, chosen-le left size f g)

module _ {S : Type 0} (alc_send : SourceBlock → TxSession S → Outcome × TxSession S)
    (bs : BlockingStruct) (scheme : Scheme) (len : ℕ)
    (short : (k : ℕ) → block_bytes scheme.es_len bs k < 2 ^ 31) where
  pub send_fdt_blocks-cut :
      (n sbn : ℕ) (left : List ℕ) (s : TxSession S)
      → length left < 2 ^ 31
      → send_fdt_blocks alc_send n sbn bs scheme len left (length left) s
        ≡ send_all alc_send true
            (cut_blocks 0 len scheme (block_bytes scheme.es_len bs) n sbn left)
            s
  unfolding send_fdt_blocks
  send_fdt_blocks-cut zero sbn left s f = refl
  send_fdt_blocks-cut (suc n) sbn left s f =
      let size = block_bytes scheme.es_len bs sbn in
      let rest : List ℕ = drop size left in
      rw (
        within-chosen size (length left) f (short sbn),
        take-chosen size left f (short sbn),
        drop-chosen size left f (short sbn),
        left-chosen size left f (short sbn),
        after-same
            (alc_send
              (record {
                buf = take size left;
                toi = 0;
                transfer_len = len;
                scheme = scheme;
                sbn = sbn;
              })
              s)
            (send_fdt_blocks alc_send n (sbn + 1) bs scheme len rest (length rest))
            (send_all alc_send true
              (cut_blocks 0 len scheme (block_bytes scheme.es_len bs) n (sbn + 1) rest))
            (λ s'. send_fdt_blocks-cut n (sbn + 1) rest s' (omega (arith, length-drop size left))),
      )

  -- A file without errors in reading, and without encoding or compressed before.
  pub send_file_blocks-cut :
      (file : File) (alloc thread : Bool) (n sbn : ℕ) (left : List ℕ) (mbytes : ℕ) (s : TxSession S)
      → (file.encoding ≡ none) ⊎ (file.encoding ≡ some (codes "gzip"))
      → ((k : ℕ) → block_bytes scheme.es_len bs k ≤ u32 (scheme.es_len * scheme.max_sb_len))
      → send_file_blocks alc_send n sbn bs scheme file len no_buffer alloc thread
          (record { left = left; bad = false })
          mbytes
          s
        ≡ send_all alc_send false
            (cut_blocks file.toi len scheme (block_bytes scheme.es_len bs) n sbn left)
            s
  unfolding send_file_blocks
  send_file_blocks-cut file alloc thread zero sbn left mbytes s plain fits = refl
  send_file_blocks-cut file alloc thread (suc n) sbn left mbytes s plain fits =
      let size = block_bytes scheme.es_len bs sbn in
      let rest : List ℕ = drop size left in
      let capacity = u32 (scheme.es_len * scheme.max_sb_len) in
      rw (
        within-take size capacity left (short sbn) (fits sbn),
        send_read-plain file.encoding capacity size (take size left)
            (λ buf. record {
              buf = buf;
              toi = file.toi;
              transfer_len = len;
              scheme = scheme;
              sbn = sbn;
            })
            s plain,
        after-same
            (alc_send
              (record {
                buf = take size left;
                toi = file.toi;
                transfer_len = len;
                scheme = scheme;
                sbn = sbn;
              })
              s)
            (send_file_blocks alc_send n (sbn + 1) bs scheme file len no_buffer alloc thread
              (record { left = rest; bad = false }) mbytes)
            (send_all alc_send false
              (cut_blocks file.toi len scheme (block_bytes scheme.es_len bs) n (sbn + 1) rest))
            (λ s'. send_file_blocks-cut file alloc thread n (sbn + 1) rest mbytes s' plain fits),
      )
    where
      within-take :
          (size capacity : ℕ) (xs : List ℕ)
          → size < 2 ^ 31
          → size ≤ capacity
          → within (length (take size xs)) capacity ≡ true
      within-take size capacity xs f g = ground (arith, length-take size xs)

      send_read-plain :
          (encoding : Option (List ℕ)) (capacity n : ℕ) (bytes : List ℕ)
          (block : List ℕ → SourceBlock) (s : TxSession S)
          → (encoding ≡ none) ⊎ (encoding ≡ some (codes "gzip"))
          → send_read alc_send encoding capacity n bytes block s ≡ alc_send (block bytes) s
      send_read-plain encoding capacity n bytes block s (inl e) = rw e refl
      send_read-plain encoding capacity n bytes block s (inr e) =
          rw (e, equal_refl (codes "gzip")) refl

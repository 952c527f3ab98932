-- ===== src/Rlc/Counts.antt =====
-- The counters of late packets are the lengths of the lists.
use route.Base.{
  ℕ, zero, suc, ◌+◌, ◌-◌, ◌≤◌, ◌<◌, ◌≡◌, refl, arith, ap, Bool, some, List, [], ◌∷◌, map, ltb, leb,
  ◌==◌, get_or, set, u16, length, length-set, inl, inr, Bool-cases, Option-cases,
}
use route.Rlc.{
  Late, Session, Code, success, failure, drop_layer, set_wait_for, missing, wait_for, add_late,
  remove_late, add_lost, without_late, unlink, max_lates, free_lists,
}
use route.Rlc.Update.{
  LateUpdate, updated, dropped, use_after_free, update_layers, expire, after_loss,
}
use route.Rlc.Receive.{add_lates, check_sequence, is_near}

-- The late packets of all layers.
abbrev pub total : List (List Late) → ℕ
total [] = 0
total (l ∷ ls) = length l + total ls

total-set :
    (ls : List (List Late)) (i : ℕ) (v : List Late)
    → i < length ls
    → total (set ls i v) + length (get_or ls i []) ≡ total ls + length v
total-set [] i v h = absurd (omega arith)
total-set (l ∷ ls) zero v h = omega arith
total-set (l ∷ ls) (suc i) v h = omega (arith, total-set ls i v (omega arith))

total-free : (ls : List (List Late)) → total (map {B = List Late} (λ l. []) ls) ≡ 0
total-free [] = refl
total-free (l ∷ ls) = omega (arith, total-free ls)

length-free : (ls : List (List Late)) → length (map {B = List Late} (λ l. []) ls) ≡ length ls
length-free [] = refl
length-free (l ∷ ls) = ap suc (length-free ls)

length-unlink :
    (n : ℕ) (ls rest : List Late) → unlink n ls ≡ some rest → length ls ≡ length rest + 1
length-unlink n [] rest e = absurd (ground arith)
length-unlink n (l ∷ ls) rest e = elim (Option-cases (unlink n ls)) [
  | inl none' ↦ ground arith
  | inr (rest', e') ↦ ground (arith, length-unlink n ls rest' e')
]

length-expire :
    (now : ℕ) (ls rest : List Late) → expire now ls ≡ some rest → length ls ≡ length rest + 1
length-expire now [] rest e = absurd (ground arith)
length-expire now (l ∷ ls) rest e = elim (Option-cases (expire now ls)) [
  | inl none' ↦ ground arith
  | inr (rest', e') ↦ ground (arith, length-expire now ls rest' e')
]

-- The counter is the number of late packets, on 16 bits, and no layer is out of the array.
pub record IsCounting (s : Session) : Type 0 where
  pub counted : s.rlc.rx_nblate ≡ u16 (total s.rlc.rx_missing)
  pub channels : s.nb_channel ≤ length s.rlc.rx_missing

without_late-IsCounting :
    (s : Session) (layer : ℕ) (rest : List Late)
    → layer < s.nb_channel
    → length (missing s layer) ≡ length rest + 1
    → IsCounting s
    → IsCounting (without_late s layer rest)
without_late-IsCounting s layer rest h e v = record {
  counted = omega (
    arith,
    v.counted,
    v.channels,
    total-set s.rlc.rx_missing layer rest (omega (arith, v.channels)),
  );
  channels = rw (length-set s.rlc.rx_missing layer rest) v.channels;
}

one_more :
    (s : Session) (layer : ℕ) (l : Late)
    → layer < s.nb_channel
    → IsCounting s
    → total (set s.rlc.rx_missing layer (l ∷ missing s layer)) ≡ total s.rlc.rx_missing + 1
one_more s layer l h v = omega (
  arith,
  v.channels,
  total-set s.rlc.rx_missing layer (l ∷ missing s layer) (omega (arith, v.channels)),
)

add_late-nb_channel :
    (s : Session) (layer i now : ℕ) → (add_late s layer i now).1.nb_channel ≡ s.nb_channel
unfolding add_late
add_late-nb_channel s layer i now = ground arith

add_late-IsCounting :
    (s : Session) (layer i now : ℕ)
    → layer < s.nb_channel
    → IsCounting s
    → IsCounting (add_late s layer i now).1
unfolding add_late
add_late-IsCounting s layer i now h v = elim (Bool-cases (ltb s.nb_channel layer)) [
  | inl e ↦ rw e v
  | inr e ↦ rw e (record {
    counted = rw (one_more s layer _ h v) (omega (arith, v.counted));
    channels = rw (length-set s.rlc.rx_missing layer _) v.channels;
  })
]

add_lates-IsCounting :
    (n : ℕ) (more : ℕ → Bool) (s : Session) (layer i now : ℕ)
    → layer < s.nb_channel
    → IsCounting s
    → IsCounting (add_lates n more s layer i now)
unfolding add_lates
add_lates-IsCounting zero more s layer i now h v = v
add_lates-IsCounting (suc n) more s layer i now h v = elim (Bool-cases (more i)) [
  | inl e ↦ rw e (
      add_lates-IsCounting n more _ layer (i + 1) now (rw (add_late-nb_channel s layer i now) h)
        (add_late-IsCounting s layer i now h v))
  | inr e ↦ rw e v
]

remove_late-IsCounting :
    (s : Session) (layer i : ℕ)
    → layer < s.nb_channel
    → IsCounting s
    → IsCounting (remove_late s layer i).1
unfolding remove_late
remove_late-IsCounting s layer i h v = elim (Bool-cases (ltb s.nb_channel layer)) [
  | inl e ↦ rw e v
  | inr e ↦ elim (Option-cases (unlink i (missing s layer))) [
    | inl none' ↦ rw (e, none') v
    | inr (rest, some') ↦
        rw (e, some')
          (let w = without_late-IsCounting s layer rest h (length-unlink i _ rest some') v in
            record { counted = w.counted; channels = w.channels })
  ]
]

pub set_wait_for-IsCounting :
    (s : Session) (layer n : ℕ) → IsCounting s → IsCounting (set_wait_for s layer n)
set_wait_for-IsCounting s layer n v = record { counted = v.counted; channels = v.channels }

pub check_sequence-IsCounting :
    (s : Session) (layer seqid now : ℕ)
    → layer < s.nb_channel
    → IsCounting s
    → IsCounting (check_sequence s layer seqid now)
unfolding check_sequence
check_sequence-IsCounting s layer seqid now h v = elim (Bool-cases (wait_for s layer == seqid)) [
  | inl a ↦ rw a (set_wait_for-IsCounting s layer _ v)
  | inr a ↦ elim (Bool-cases (ltb (wait_for s layer) seqid)) [
    | inl b ↦ elim (Bool-cases (is_near (seqid - wait_for s layer))) [
      | inl c ↦
          rw (a, b, c)
            (set_wait_for-IsCounting _ layer _ (add_lates-IsCounting max_lates _ s layer _ now h v))
      | inr c ↦ rw (a, b, c) (remove_late-IsCounting s layer seqid h v)
    ]
    | inr b ↦ elim (Bool-cases (is_near (wait_for s layer - seqid))) [
      | inl c ↦ rw (a, b, c) (remove_late-IsCounting s layer seqid h v)
      | inr c ↦
          rw (a, b, c)
            (set_wait_for-IsCounting _ layer _ (add_lates-IsCounting max_lates _ s layer _ now h v))
    ]
  ]
]

add_lost-IsCounting : (s : Session) (now : ℕ) → IsCounting s → IsCounting (add_lost s now).1
unfolding add_lost free_lists
add_lost-IsCounting s now v = elim (Bool-cases (leb s.rlc.loss_limit (u16 (s.rlc.rx_nblost + 1)))) [
  | inl e ↦ rw e (record {
    counted = rw (total-free s.rlc.rx_missing) refl;
    channels = rw (length-free s.rlc.rx_missing) v.channels;
  })
  | inr e ↦ rw e (record { counted = v.counted; channels = v.channels })
]

-- An update that ends leaves the counters and the number of channels right.
abbrev pub Counts : ℕ → LateUpdate → Type 0
Counts n (updated s) = IsCounting s × (s.nb_channel ≡ n)
Counts n (dropped s) = IsCounting s × (s.nb_channel ≡ n)
Counts n use_after_free = Unit

add_lost-nb_channel : (s : Session) (now : ℕ) → (add_lost s now).1.nb_channel ≡ s.nb_channel
unfolding add_lost
add_lost-nb_channel s now = ground arith

after_loss-Counts :
    (n : ℕ) (r : Code × Session) → IsCounting r.1 → r.1.nb_channel ≡ n → Counts n (after_loss r)
after_loss-Counts n (success, s) v e = tt
after_loss-Counts n (failure, s) v e = tt
after_loss-Counts n (drop_layer, s) v e = (v, e)

pub update_layers-Counts :
    (n : ℕ) (s : Session) (layer now : ℕ)
    → n + layer ≤ s.nb_channel
    → IsCounting s
    → Counts s.nb_channel (update_layers n s layer now)
unfolding update_layers
update_layers-Counts zero s layer now h v = (v, refl)
update_layers-Counts (suc n) s layer now h v = elim (Option-cases (expire now (missing s layer))) [
  | inl none' ↦ rw (update_layers, none') (update_layers-Counts n s (layer + 1) now (omega arith) v)
  | inr (rest, some') ↦
      rw (update_layers, some')
        (let w =
            without_late-IsCounting s layer rest (omega arith) (length-expire now _ rest some') v in
          after_loss-Counts s.nb_channel (add_lost (without_late s layer rest) now)
            (add_lost-IsCounting _ now w) (add_lost-nb_channel (without_late s layer rest) now))
]

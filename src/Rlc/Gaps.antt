-- ===== src/Rlc/Gaps.antt =====
-- `check_sequence`: which packets are taken for late, and what becomes of them.
use route.Base.{
  ℕ, zero, suc, ◌+◌, ◌-◌, ◌^◌, ◌≤◌, ◌<◌, ◌≡◌, ◌≢◌, refl, arith, Bool, true, false, List, [], ◌∷◌,
  map, ltb, ◌==◌, u16, length, get_or-set_self, get_or-set_ne, ◌∙◌, length-set, inl, inr,
  Bool-cases,
}
use route.Rlc.{Late, Session, add_late, missing, wait_for, set_wait_for, max_lates}
use route.Rlc.Receive.{add_lates, check_sequence, is_near}

-- The sequence numbers a layer misses, the newest first.
abbrev pub numbers : List Late → List ℕ
numbers = map (λ l. l.seq_num)

-- The numbers of `n` packets from `i` on, the last first, before `tail`.
abbrev pub run : ℕ → ℕ → List ℕ → List ℕ
run zero i tail = tail
run (suc n) i tail = run n (i + 1) (u16 i ∷ tail)

-- `layer` is a layer of the session, and the arrays reach it.
pub record IsLayer (s : Session) (layer : ℕ) : Type 0 where
  pub in_session : layer < s.nb_channel
  pub in_missing : layer < length s.rlc.rx_missing
  pub in_wait_for : layer < length s.rlc.rx_wait_for

pub add_late-missing :
    (s : Session) (layer i now : ℕ)
    → IsLayer s layer
    → numbers (missing (add_late s layer i now).1 layer) ≡ u16 i ∷ numbers (missing s layer)
unfolding add_late
add_late-missing s layer i now v =
    rw (closed, get_or-set_self s.rlc.rx_missing layer _ [] v.in_missing) refl
  where
    closed : ltb s.nb_channel layer ≡ false
    closed = ground (arith, v.in_session)

-- From `s` to `s'` at most the late packets of the layer change.
pub record SameBut (layer : ℕ) (s s' : Session) : Type 0 where
  pub is_layer : IsLayer s' layer
  pub waits : s'.rlc.rx_wait_for ≡ s.rlc.rx_wait_for
  pub others : (l : ℕ) → layer ≢ l → missing s' l ≡ missing s l

SameBut-trans :
    (layer : ℕ) (s t u : Session) → SameBut layer s t → SameBut layer t u → SameBut layer s u
SameBut-trans layer s t u a b = record {
  is_layer = b.is_layer;
  waits = b.waits ∙ a.waits;
  others = λ l ne. b.others l ne ∙ a.others l ne;
}

add_late-SameBut :
    (s : Session) (layer i now : ℕ) → IsLayer s layer → SameBut layer s (add_late s layer i now).1
unfolding add_late
add_late-SameBut s layer i now v = elim (Bool-cases (ltb s.nb_channel layer)) [
  | inl e ↦ rw e (record { is_layer = v; waits = refl; others = λ l ne. refl })
  | inr e ↦ rw e (record {
    is_layer = record {
      in_session = v.in_session;
      in_missing = rw (length-set s.rlc.rx_missing layer _) v.in_missing;
      in_wait_for = v.in_wait_for;
    };
    waits = refl;
    others = λ l ne. get_or-set_ne s.rlc.rx_missing layer l _ [] ne;
  })
]

module _ (more : ℕ → Bool) (layer now : ℕ) where
  add_lates-SameBut :
      (n : ℕ) (s : Session) (i : ℕ)
      → IsLayer s layer
      → SameBut layer s (add_lates n more s layer i now)
  unfolding add_lates
  add_lates-SameBut zero s i v = record { is_layer = v; waits = refl; others = λ l ne. refl }
  add_lates-SameBut (suc n) s i v = elim (Bool-cases (more i)) [
    | inl e ↦ rw e (
        let one = add_late-SameBut s layer i now v in
        SameBut-trans layer s _ _ one
          (add_lates-SameBut n (add_late s layer i now).1 (i + 1) one.is_layer))
    | inr e ↦ rw e (record { is_layer = v; waits = refl; others = λ l ne. refl })
  ]

  -- The loop adds `k` numbers when its test holds for these, and then fails or the limit is met.
  add_lates-run :
      (k n : ℕ) (s : Session) (i : ℕ)
      → IsLayer s layer
      → ((j : ℕ) → i ≤ j → j < i + k → more j ≡ true)
      → k ≤ n
      → (k < n → (j : ℕ) → j ≡ i + k → more j ≡ false)
      → numbers (missing (add_lates n more s layer i now) layer)
        ≡ run k i (numbers (missing s layer))
  unfolding add_lates
  add_lates-run zero zero s i v holds le stops = refl
  add_lates-run zero (suc n) s i v holds le stops = rw (stops (omega arith) i (omega arith)) refl
  add_lates-run (suc k) zero s i v holds le stops = absurd (omega arith)
  add_lates-run (suc k) (suc n) s i v holds le stops =
      rw
        (
          holds i (omega arith) (omega arith),
          add_lates-run k n (add_late s layer i now).1 (i + 1)
              (add_late-SameBut s layer i now v).is_layer
              (λ j le lt. holds j (omega arith) (omega arith)) (omega arith)
              (λ lt j e. stops (omega arith) j (omega arith)),
          add_late-missing s layer i now v,
        )
        refl

-- After a gap in the numbers of a layer.
pub record Skipped (layer seqid n : ℕ) (s s' : Session) : Type 0 where
  pub newest : numbers (missing s' layer) ≡ run n (wait_for s layer) (numbers (missing s layer))
  pub next : wait_for s' layer ≡ u16 (seqid + 1)
  pub others : (l : ℕ) → layer ≢ l → missing s' l ≡ missing s l

skipped :
    (more : ℕ → Bool) (layer seqid now k : ℕ) (s : Session)
    → IsLayer s layer
    → ((j : ℕ) → wait_for s layer ≤ j → j < wait_for s layer + k → more j ≡ true)
    → k ≤ max_lates
    → (k < max_lates → (j : ℕ) → j ≡ wait_for s layer + k → more j ≡ false)
    → Skipped layer seqid k s
        (set_wait_for (add_lates max_lates more s layer (wait_for s layer) now) layer (seqid + 1))
skipped more layer seqid now k s v holds le stops =
    let same = add_lates-SameBut more layer now max_lates s (wait_for s layer) v in
    record {
      newest = add_lates-run more layer now k max_lates s (wait_for s layer) v holds le stops;
      next = get_or-set_self _ layer _ 0 same.is_layer.in_wait_for;
      others = same.others;
    }

-- A packet of a layer of the session, whose number has passed 65535 while the layer waits for one
-- by at least half the numbers above it: exactly a hundred packets are taken for late, however
-- many are missing; the layer waits for the next number.
pub check_sequence-wrap :
    (s : Session) (layer seqid now : ℕ)
    → IsLayer s layer
    → seqid + 32768 ≤ wait_for s layer
    → wait_for s layer < 2 ^ 16
    → Skipped layer seqid max_lates s (check_sequence s layer seqid now)
unfolding check_sequence
check_sequence-wrap s layer seqid now v far fits =
    rw (differs, behind, is_far)
      (skipped _ layer seqid now _ s v (λ j le h. ground arith) (omega arith)
        (λ h j e. absurd (omega arith)))
  where
    differs : (wait_for s layer == seqid) ≡ false
    differs = ground arith

    behind : ltb (wait_for s layer) seqid ≡ false
    behind = ground arith

    is_far : is_near (wait_for s layer - seqid) ≡ false
    is_far = ground arith

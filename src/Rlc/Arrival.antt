-- ===== src/Rlc/Arrival.antt =====
-- `check_sequence` and `remove_late`: a packet that arrives after its successors.
use route.Base.{
  ℕ, ◌+◌, ◌-◌, ◌≤◌, ◌<◌, ◌≡◌, refl, arith, ap, ◌∙◌, Bool, true, false, ◌||◌, none, some, List, [],
  ◌∷◌, ltb, ◌==◌, if◌then◌else◌, u32, get_or-set_self, inl, inr, Option-cases,
}
use route.Rlc.{Late, Session, remove_late, missing, wait_for, unlink}
use route.Rlc.Receive.{check_sequence, is_near}
use route.Rlc.Gaps.{numbers, IsLayer}

-- The list without the first occurrence of a number.
abbrev pub without : ℕ → List ℕ → List ℕ
without n [] = []
without n (x ∷ xs) = if x == n then xs else x ∷ without n xs

abbrev pub is_in : ℕ → List ℕ → Bool
is_in n [] = false
is_in n (x ∷ xs) = x == n || is_in n xs

pub unlink-without :
    (n : ℕ) (ls rest : List Late) → unlink n ls ≡ some rest → numbers rest ≡ without n (numbers ls)
unlink-without n [] rest e = absurd (ground arith)
unlink-without n (l ∷ ls) rest e = elim (Option-cases (unlink n ls)) [
  | inl none' ↦ ground arith
  | inr (rest', e') ↦ ground (arith, unlink-without n ls rest' e')
]

pub unlink-is_in :
    (n : ℕ) (ls rest : List Late) → unlink n ls ≡ some rest → is_in n (numbers ls) ≡ true
unlink-is_in n [] rest e = absurd (ground arith)
unlink-is_in n (l ∷ ls) rest e = elim (Option-cases (unlink n ls)) [
  | inl none' ↦ ground arith
  | inr (rest', e') ↦ ground (arith, unlink-is_in n ls rest' e')
]

pub unlink-none : (n : ℕ) (ls : List Late) → unlink n ls ≡ none → is_in n (numbers ls) ≡ false
unlink-none n [] e = refl
unlink-none n (l ∷ ls) e = ground (arith, unlink-none n ls)

without-none : (n : ℕ) (xs : List ℕ) → is_in n xs ≡ false → without n xs ≡ xs
without-none n [] e = refl
without-none n (x ∷ xs) e = ground (arith, without-none n xs)

-- A packet of a layer of the session, behind the one waited for by less than half the numbers, is
-- taken off the late packets of its layer; the number waited for stays. The losses of the session
-- grow by one more, on 32 bits, when it was among them.
pub check_sequence-late :
    (s : Session) (layer seqid now : ℕ)
    → IsLayer s layer
    → seqid < wait_for s layer
    → wait_for s layer ≤ seqid + 32767
    → let s' = check_sequence s layer seqid now in
      (numbers (missing s' layer) ≡ without seqid (numbers (missing s layer)))
      × (wait_for s' layer ≡ wait_for s layer)
      × (s'.lost_packets ≡ (
          if is_in seqid (numbers (missing s layer))
          then u32 (s.lost_packets + 1)
          else s.lost_packets))
unfolding check_sequence remove_late
check_sequence-late s layer seqid now v lt near =
    rw (differs, behind, is_near', closed)
      (elim (Option-cases (unlink seqid (missing s layer))) [
        | inl none' ↦
            let absent = unlink-none seqid (missing s layer) none' in
            rw (none', without-none seqid _ absent, absent) (refl, refl, refl)
        | inr (rest, some') ↦
            rw (some', unlink-is_in seqid _ rest some')
              (
                ap numbers (get_or-set_self s.rlc.rx_missing layer rest [] v.in_missing)
                    ∙ unlink-without seqid _ rest some',
                refl,
                refl,
              )
      ])
  where
    differs : (wait_for s layer == seqid) ≡ false
    differs = ground arith

    behind : ltb (wait_for s layer) seqid ≡ false
    behind = ground arith

    is_near' : is_near (wait_for s layer - seqid) ≡ true
    is_near' = ground arith

    closed : ltb s.nb_channel layer ≡ false
    closed = ground (arith, v.in_session)

-- ===== src/Fdt/Copying.antt =====
-- One description in `update_fdt` of flutelib/fdt.c: what `copy_file_info` and the walk to the file of
-- its TOI do to the list.
use route.Base.{
  ℕ, suc, ◌+◌, ◌≡◌, ◌≤◌, refl, ap, arith, ◌∙◌, false, Option, none, some, List, [], ◌∷◌, length,
  ◌==◌, ◌&&◌, Bool, true, not, max, ◌⊎◌, if◌then◌else◌, Bool-cases, inl, inr, u32,
}
use route.Fdt.{
  number_updated, field_updated, File, Walk, new_file, copy_number, copy_field, copied_info,
  info_updated, copy_file_info, merge_file, find_file_with_toi,
}
use route.Fdt.Completed.{
  table_of, first_number, first_field, completed_by, lacks_number, lacks_field, lacks, completed,
  with_file, grade,
}

copy_number-first : (src dest : ℕ) → copy_number src dest ≡ first_number dest src
unfolding copy_number
copy_number-first src dest = ground arith

copy_field-first : {A : Type 0} (src dest : Option A) → copy_field src dest ≡ first_field dest src
unfolding copy_field
copy_field-first src none = refl
copy_field-first src (some d) = refl

number_updated-lacks : (src dest : ℕ) → number_updated src dest ≡ lacks_number dest src
unfolding number_updated
number_updated-lacks src dest = ground arith

field_updated-lacks :
    {A : Type 0} (src dest : Option A) → field_updated src dest ≡ lacks_field dest src
unfolding field_updated
field_updated-lacks none none = refl
field_updated-lacks (some s) none = refl
field_updated-lacks src (some d) = refl

copied_info-completed : (src dest : File) → copied_info src dest ≡ completed_by dest src
unfolding copied_info
copied_info-completed src dest = simp (copy_number-first, copy_field-first)

info_updated-lacks : (src dest : File) → info_updated src dest ≡ lacks dest src
unfolding info_updated
info_updated-lacks src dest = simp (number_updated-lacks, field_updated-lacks)

toi-copied_info : (src dest : File) → src.toi ≡ dest.toi → (copied_info src dest).toi ≡ dest.toi
unfolding copied_info copy_number
toi-copied_info src dest e = ground arith

toi-copied_new : (src : File) → (copied_info src new_file).toi ≡ src.toi
unfolding copied_info copy_number
toi-copied_new src = ground arith

abbrev copied_entry : File → Option File → Option File
copied_entry tmp none = some (copied_info tmp new_file)
copied_entry tmp (some f) = some (copied_info tmp f)

copied_entry-completed : (tmp : File) (o : Option File) → copied_entry tmp o ≡ completed tmp o
copied_entry-completed tmp none = ap (λ (f : File). some f) (copied_info-completed tmp new_file)
copied_entry-completed tmp (some f) = ap (λ (g : File). some g) (copied_info-completed tmp f)

merge_file-copied_entry :
    (tmp f : File) (rest : List File) (nb updated toi : ℕ)
    → find_file_with_toi (merge_file tmp f rest nb updated).1 toi ≡ (
        if tmp.toi == toi
        then copied_entry tmp (find_file_with_toi (f ∷ rest) toi)
        else find_file_with_toi (f ∷ rest) toi)
unfolding merge_file find_file_with_toi copy_file_info
merge_file-copied_entry tmp f [] nb updated toi =
    ground (arith, toi-copied_info tmp f, toi-copied_new tmp)
merge_file-copied_entry tmp f (next ∷ rest) nb updated toi =
    let further = merge_file-copied_entry tmp next rest nb updated toi in
    elim (Bool-cases (tmp.toi == f.toi)) [
      | inl here ↦ rw here (ground (arith, toi-copied_info tmp f))
      | inr elsewhere ↦ rw elsewhere (rw further (ground arith))
    ]

pub merge_file-completed :
    (tmp f : File) (rest : List File) (nb updated toi : ℕ)
    → find_file_with_toi (merge_file tmp f rest nb updated).1 toi
      ≡ with_file tmp (table_of (f ∷ rest)) toi
merge_file-completed tmp f rest nb updated toi =
    merge_file-copied_entry tmp f rest nb updated toi
    ∙ ap (λ o. if tmp.toi == toi then o else find_file_with_toi (f ∷ rest) toi)
        (copied_entry-completed tmp (find_file_with_toi (f ∷ rest) toi))

same : (f tmp : File) → (tmp.toi == f.toi) ≡ true → (f.toi == tmp.toi) ≡ true
same f tmp e = ground arith

other : (f tmp : File) → (tmp.toi == f.toi) ≡ false → (f.toi == tmp.toi) ≡ false
other f tmp e = ground arith

one :
    (updated : ℕ) (b : Bool)
    → updated ≤ 2
    → (if b && not (updated == 2) then 1 else updated) ≡ max updated (if b then 1 else 0)
one updated b l = ground arith

two :
    (updated : ℕ) (b : Bool)
    → updated ≤ 2
    → (if b then 2 else updated) ≡ max updated (if b then 2 else 0)
two updated b l = ground arith

-- The result of one description.
pub merge_file-grade :
    (tmp f : File) (rest : List File) (nb updated : ℕ)
    → updated ≤ 2
    → (merge_file tmp f rest nb updated).0 ≡ max updated (grade tmp (table_of (f ∷ rest) tmp.toi))
unfolding merge_file find_file_with_toi copy_file_info
merge_file-grade tmp f [] nb updated l = elim (Bool-cases (tmp.toi == f.toi)) [
  | inl here ↦ rw (here, same f tmp here, info_updated-lacks tmp f) (one updated (lacks f tmp) l)
  | inr elsewhere ↦
      rw (elsewhere, other f tmp elsewhere, info_updated-lacks tmp new_file)
        (two updated (lacks new_file tmp) l)
]
merge_file-grade tmp f (next ∷ rest) nb updated l = elim (Bool-cases (tmp.toi == f.toi)) [
  | inl here ↦ rw (here, same f tmp here, info_updated-lacks tmp f) (one updated (lacks f tmp) l)
  | inr elsewhere ↦
      rw (elsewhere, other f tmp elsewhere) (merge_file-grade tmp next rest nb updated l)
]

-- The number of files goes with the list, which is not empty.
pub record Grown (fs : List File) (nb : ℕ) (w : Walk) : Type 0 where
  pub first : File
  pub others : List File
  pub cells : w.1 ≡ first ∷ others
  pub counted :
      ((length w.1 ≡ length fs) × (w.2 ≡ nb))
      ⊎ ((length w.1 ≡ length fs + 1) × (w.2 ≡ u32 (nb + 1)))

pub merge_file-Grown :
    (tmp f : File) (rest : List File) (nb updated : ℕ)
    → Grown (f ∷ rest) nb (merge_file tmp f rest nb updated)
unfolding merge_file copy_file_info
merge_file-Grown tmp f [] nb updated = elim (Bool-cases (tmp.toi == f.toi)) [
  | inl here ↦
      rw here (record {
        first = copied_info tmp f;
        others = [];
        cells = refl;
        counted = inl (refl, refl);
      })
  | inr elsewhere ↦ rw elsewhere (record {
    first = f;
    others = copied_info tmp new_file ∷ [];
    cells = refl;
    counted = inr (refl, refl);
  })
]
merge_file-Grown tmp f (next ∷ rest) nb updated =
    let g = merge_file-Grown tmp next rest nb updated in
    elim (Bool-cases (tmp.toi == f.toi)) [
      | inl here ↦ rw here (record {
        first = copied_info tmp f;
        others = next ∷ rest;
        cells = refl;
        counted = inl (refl, refl);
      })
      | inr elsewhere ↦ rw elsewhere (record {
        first = f;
        others = (merge_file tmp next rest nb updated).1;
        cells = refl;
        counted = longer g.counted;
      })
    ]
  where
    longer :
        {a b c : ℕ}
        → ((a ≡ b) × (c ≡ nb)) ⊎ ((a ≡ b + 1) × (c ≡ u32 (nb + 1)))
        → ((suc a ≡ suc b) × (c ≡ nb)) ⊎ ((suc a ≡ suc b + 1) × (c ≡ u32 (nb + 1)))
    longer h = ground arith

-- A field that is set stays.
copy_number-again : (src dest : ℕ) → copy_number src (copy_number src dest) ≡ copy_number src dest
unfolding copy_number
copy_number-again src dest = ground arith

copy_field-again :
    {A : Type 0} (src dest : Option A) → copy_field src (copy_field src dest) ≡ copy_field src dest
unfolding copy_field
copy_field-again src (some d) = refl
copy_field-again (some s) none = refl
copy_field-again none none = refl

number_updated-again : (src dest : ℕ) → number_updated src (copy_number src dest) ≡ false
unfolding copy_number number_updated
number_updated-again src dest = ground arith

field_updated-again :
    {A : Type 0} (src dest : Option A) → field_updated src (copy_field src dest) ≡ false
unfolding copy_field field_updated
field_updated-again src (some d) = refl
field_updated-again (some s) none = refl
field_updated-again none none = refl

-- A description that is copied a second time changes nothing, and `copy_file_info` says so.
copy_file_info-idempotent :
    (src dest : File)
    → copy_file_info src (copy_file_info src dest).1 ≡ (false, (copy_file_info src dest).1)
unfolding copy_file_info copied_info info_updated
copy_file_info-idempotent src dest =
    simp (copy_number-again, number_updated-again, copy_field-again, field_updated-again)

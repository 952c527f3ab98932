-- ===== src/Fdt/Merge.antt =====
-- `update_fdt` of flutelib/fdt.c against a table that has, for each TOI, at most one description.
use route.Base.{
  ℕ, ◌+◌, ◌≡◌, ◌≤◌, refl, ap, arith, ◌∙◌, Option, none, some, List, [], ◌∷◌, length, Bool, max, ◌⊎◌,
  if◌then◌else◌, u32,
}
use route.Fdt.{File, Fdt, Walk, new_file, merge_file, merge_files, update_fdt}
use route.Fdt.Completed.{Table, table_of, lacks, with_file, merged, grade, graded}
use route.Fdt.Copying.{merge_file-completed, merge_file-grade, merge_file-Grown}

merged-ext :
    (files : List File) (t t' : Table)
    → ((n : ℕ) → t n ≡ t' n)
    → (toi : ℕ) → merged files t toi ≡ merged files t' toi
merged-ext [] t t' h toi = h toi
merged-ext (tmp ∷ rest) t t' h toi = merged-ext rest _ _ (λ n. rw (h n) refl) toi

graded-ext :
    (files : List File) (t t' : Table) → ((n : ℕ) → t n ≡ t' n) → graded files t ≡ graded files t'
graded-ext [] t t' h = refl
graded-ext (tmp ∷ rest) t t' h =
    ap (λ o. max (grade tmp o) (graded rest (with_file tmp t))) (h tmp.toi)
    ∙ ap (λ n. max (grade tmp (t' tmp.toi)) n) (graded-ext rest _ _ (λ n. rw (h n) refl))

grade-le : (tmp : File) (o : Option File) → grade tmp o ≤ 2
grade-le tmp none = small (lacks new_file tmp) 2 (omega arith)
  where
    small : (b : Bool) (n : ℕ) → n ≤ 2 → (if b then n else 0) ≤ 2
    small b n l = ground arith
grade-le tmp (some f) = small (lacks f tmp) 1 (omega arith)
  where
    small : (b : Bool) (n : ℕ) → n ≤ 2 → (if b then n else 0) ≤ 2
    small b n l = ground arith

-- The table has files, and their number.
pub record IsTable (files : List File) (nb : ℕ) : Type 0 where
  pub first : File
  pub others : List File
  pub cells : files ≡ first ∷ others
  pub counted : nb ≡ u32 (length files)

-- What `merge_files` makes of a table, with the result `updated` before it.
pub record Refines (fs : List File) (t : Table) (updated : ℕ) (w : Walk) : Type 0 where
  pub is_table : IsTable w.1 w.2
  pub same_files : (toi : ℕ) → table_of w.1 toi ≡ merged fs t toi
  pub result : w.0 ≡ max updated (graded fs t)

merge_files-Refines :
    (files : List File) (w : Walk)
    → IsTable w.1 w.2
    → w.0 ≤ 2
    → (w' : Walk) × (merge_files files w ≡ some w') × Refines files (table_of w.1) w.0 w'
unfolding merge_files
merge_files-Refines [] w v l =
    (w, refl, record { is_table = v; same_files = λ toi. refl; result = omega arith })
merge_files-Refines (tmp ∷ rest) (updated, [], nb) v l = absurd (empty v.cells)
  where
    empty : {f : File} {fs : List File} → [] ≡ f ∷ fs → ⊥
    empty e = cc
merge_files-Refines (tmp ∷ rest) (updated, f ∷ fs, nb) v l =
    let g = merge_file-Grown tmp f fs nb updated in
    let now = merge_file-grade tmp f fs nb updated l in
    let (w', e, r) =
      merge_files-Refines rest (merge_file tmp f fs nb updated)
        (record {
          first = g.first;
          others = g.others;
          cells = g.cells;
          counted = number g.counted v.counted;
        })
        (omega (arith, now, grade-le tmp (table_of (f ∷ fs) tmp.toi))) in
    (
      w',
      e,
      record {
        is_table = r.is_table;
        same_files = λ toi.
            r.same_files toi
            ∙ merged-ext rest _ _ (λ n. merge_file-completed tmp f fs nb updated n) toi;
        result = omega (
          arith,
          r.result,
          now,
          graded-ext rest _ _ (λ n. merge_file-completed tmp f fs nb updated n),
        );
      },
    )
  where
    number :
        {a b c : ℕ}
        → ((a ≡ b) × (c ≡ nb)) ⊎ ((a ≡ b + 1) × (c ≡ u32 (nb + 1)))
        → nb ≡ u32 b
        → c ≡ u32 a
    number h e = ground arith

-- `update_fdt` on a table that has files and counts them, on 32 bits, returns, and again leaves
-- such a table; for each TOI it has the description that was found before, or an empty one, completed
-- by those of that TOI, one after the other: each field has the first value that is set, but for the
-- three that are never copied. The result is 2 if one of them was for a new TOI and had some field,
-- or else 1 if one of them gave a field that was not set, or else 0.
pub update_fdt-Refines :
    (fdt_db : Fdt) (files : List File)
    → IsTable fdt_db.file_list fdt_db.nb_of_files
    → (w : Walk) × (update_fdt fdt_db files ≡ some w)
      × Refines files (table_of fdt_db.file_list) 0 w
unfolding update_fdt
update_fdt-Refines fdt_db files v =
    merge_files-Refines files (0, fdt_db.file_list, fdt_db.nb_of_files) v (omega arith)

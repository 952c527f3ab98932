-- ===== src/Transport/Objects.antt =====
-- `insert_object`: the lists of objects stay in the order of their TOIs and lose no object.
use route.Base.{
  ℕ, ◌≤◌, ◌≡◌, refl, arith, List, [], ◌∷◌, All, ltb, ◌==◌, if◌then◌else◌, Bool-cases, inl, inr,
  ltb→lt,
}
use mathlib.Core.List.{Perm}
use mathlib.Core.List.Perm
use route.Transport.{TransObj, place_object, insert_into, ObjectLists, insert_object}

abbrev pub FromToi : ℕ → List TransObj → Type 0
FromToi n = All (λ o. n ≤ o.toi)

abbrev pub IsOrdered : List TransObj → Type 0
IsOrdered [] = Unit
IsOrdered (o ∷ os) = FromToi o.toi os × IsOrdered os

FromToi-trans : (n m : ℕ) (os : List TransObj) → n ≤ m → FromToi m os → FromToi n os
FromToi-trans n m [] h a = tt
FromToi-trans n m (o ∷ os) h a = (omega arith, FromToi-trans n m os h a.1)

-- The walk over one more object, also at the end of the list.
insert_into-cons :
    (o u : TransObj) (os : List TransObj)
    → insert_into o (u ∷ os) ≡ (if ltb o.toi u.toi then o ∷ u ∷ os else u ∷ insert_into o os)
unfolding place_object
insert_into-cons o u [] = refl
insert_into-cons o u (v ∷ os) = refl

insert_into-FromToi :
    (n : ℕ) (o : TransObj) (os : List TransObj)
    → n ≤ o.toi
    → FromToi n os
    → FromToi n (insert_into o os)
insert_into-FromToi n o [] h a = (h, tt)
insert_into-FromToi n o (u ∷ os) h a =
    rw (insert_into-cons o u os) (ground (arith, insert_into-FromToi n o os h a.1))

insert_into-IsOrdered :
    (o : TransObj) (os : List TransObj) → IsOrdered os → IsOrdered (insert_into o os)
insert_into-IsOrdered o [] s = (tt, tt)
insert_into-IsOrdered o (u ∷ os) s =
    rw (insert_into-cons o u os) (elim (Bool-cases (ltb o.toi u.toi)) [
      | inl lt ↦ rw lt (
        (
          (omega (arith, ltb→lt _ _ lt)),
          FromToi-trans o.toi u.toi os (omega (arith, ltb→lt _ _ lt)) s.0,
        ),
        s,
      )
      | inr ge ↦
          rw ge (insert_into-FromToi u.toi o os (ground arith) s.0, insert_into-IsOrdered o os s.1)
    ])

insert_into-perm : (o : TransObj) (os : List TransObj) → Perm (insert_into o os) (o ∷ os)
insert_into-perm o [] = Perm.refl _
insert_into-perm o (u ∷ os) = rw (insert_into-cons o u os) (elim (Bool-cases (ltb o.toi u.toi)) [
  | inl lt ↦ rw lt (Perm.refl _)
  | inr ge ↦ rw ge (Perm.trans (Perm.cons u (insert_into-perm o os)) (Perm.swap _ _ _))
])

-- The list that a type names, and the other one.
abbrev pub lists_of : ObjectLists → ℕ → List TransObj × List TransObj
lists_of s type = if type == 0 then (s.fdt_list, s.obj_list) else (s.obj_list, s.fdt_list)

-- `insert_object` adds the object to the list its type names and to no other; the list stays in
-- the order of the TOIs, objects of equal TOI included.
pub insert_object-IsOrdered :
    (o : TransObj) (s : ObjectLists) (type : ℕ)
    → IsOrdered (lists_of s type).0
    → let s' = insert_object o s type in
      IsOrdered (lists_of s' type).0
      × Perm (lists_of s' type).0 (o ∷ (lists_of s type).0)
      × ((lists_of s' type).1 ≡ (lists_of s type).1)
unfolding insert_object
insert_object-IsOrdered o s type h = elim (Bool-cases (type == 0)) [
  | inl e ↦
      rw e (insert_into-IsOrdered o s.fdt_list (rw e at h), insert_into-perm o s.fdt_list, refl)
  | inr e ↦
      rw e (insert_into-IsOrdered o s.obj_list (rw e at h), insert_into-perm o s.obj_list, refl)
]

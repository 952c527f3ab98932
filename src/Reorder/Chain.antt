-- ===== src/Reorder/Chain.antt =====
-- The cells of the linked list in alclib/alc_rx.c, in their order, and what writes to the heap
-- leave of them.
use route.Base.{
  ℕ, ◌≡◌, ◌≢◌, refl, arith, sym, ◌∙◌, ap, Option, none, some, List, [], ◌∷◌, ◌++◌, All,
}
use route.Reorder.{PacketBuffer, Cell, cell, Heap, Store, put, load, done, crashed}

-- Addresses with the packets stored there.
abbrev pub Cells : Type 0
Cells = List (ℕ × PacketBuffer)

abbrev pub first_or : Cells → Option ℕ → Option ℕ
first_or [] e = e
first_or (x ∷ xs) e = some x.0

abbrev pub last_or : Cells → Option ℕ → Option ℕ
last_or [] e = e
last_or (x ∷ xs) e = last_or xs (some x.0)

-- Each cell points to the next, and the last to `e`.
abbrev pub Linked : Heap → Cells → Option ℕ → Type 0
Linked h [] e = Unit
Linked h (x ∷ xs) e = (h x.0 ≡ some (cell x.1 (first_or xs e))) × Linked h xs e

abbrev pub Away : ℕ → Cells → Type 0
Away a = All (λ x. x.0 ≢ a)

abbrev pub NoDuplicate : Cells → Type 0
NoDuplicate [] = Unit
NoDuplicate (x ∷ xs) = Away x.0 xs × NoDuplicate xs

-- The variables hold the list of the cells.
pub record IsStored (st : Store) (xs : Cells) : Type 0 where
  pub root_first : st.root ≡ first_or xs none
  pub head_last : st.head ≡ last_or xs none
  pub linked : Linked st.heap xs none
  pub no_duplicate : NoDuplicate xs

pub put-ne : (h : Heap) (a p : ℕ) (c : Option Cell) → p ≢ a → put h a c p ≡ h p
put-ne h a p c n = ground arith

pub put-Linked :
    (h : Heap) (a : ℕ) (c : Option Cell) (xs : Cells) (e : Option ℕ)
    → Away a xs
    → Linked h xs e
    → Linked (put h a c) xs e
put-Linked h a c [] e n l = tt
put-Linked h a c (x ∷ xs) e n l = (put-ne h a x.0 c n.0 ∙ l.0, put-Linked h a c xs e n.1 l.1)

pub first_or-append :
    (xs ys : Cells) (e : Option ℕ) → first_or (xs ++ ys) e ≡ first_or xs (first_or ys e)
first_or-append [] ys e = refl
first_or-append (x ∷ xs) ys e = refl

pub append-Linked :
    (h : Heap) (xs ys : Cells) (e : Option ℕ)
    → Linked h xs (first_or ys e)
    → Linked h ys e
    → Linked h (xs ++ ys) e
append-Linked h [] ys e l k = k
append-Linked h (x ∷ xs) ys e l k =
    (rw (first_or-append xs ys e) l.0, append-Linked h xs ys e l.1 k)

pub split-Linked :
    (h : Heap) (xs ys : Cells) (e : Option ℕ)
    → Linked h (xs ++ ys) e
    → Linked h xs (first_or ys e) × Linked h ys e
split-Linked h [] ys e l = (tt, l)
split-Linked h (x ∷ xs) ys e l =
    let (front, back) = split-Linked h xs ys e l.1 in
    ((l.0 ∙ ap (λ (p : Option ℕ). some (cell x.1 p)) (first_or-append xs ys e), front), back)

pub last_or-append :
    (xs : Cells) (y : ℕ × PacketBuffer) (ys : Cells) (e e' : Option ℕ)
    → last_or (xs ++ y ∷ ys) e ≡ last_or (y ∷ ys) e'
last_or-append [] y ys e e' = refl
last_or-append (x ∷ xs) y ys e e' = last_or-append xs y ys (some x.0) e'

pub load-some : (h : Heap) (a : ℕ) {c : Cell} → h a ≡ some c → load h a ≡ done c
load-some h a e = rw (load, e) refl

pub load-none : (h : Heap) (a : ℕ) → h a ≡ none → load h a ≡ crashed
load-none h a e = rw (load, e) refl

-- What is not allocated is no cell of the list.
pub unallocated-Away :
    (h : Heap) (a : ℕ) (xs : Cells) (e : Option ℕ) → h a ≡ none → Linked h xs e → Away a xs
unallocated-Away h a [] e n l = tt
unallocated-Away h a (x ∷ xs) e n l =
    (λ same. absurd (clash (x.0) same l.0), unallocated-Away h a xs e n l.1)
  where
    clash : (p : ℕ) {c : Cell} → p ≡ a → h p ≡ some c → ⊥
    clash p same found = cc

-- The cell written last, with its pointer turned to another.
pub record Turned (h : Heap) (x : ℕ × PacketBuffer) (xs : Cells) (a : ℕ) : Type 0 where
  pub last : ℕ
  pub stored : Cell
  pub is_last : last_or (x ∷ xs) none ≡ some last
  pub found : h last ≡ some stored
  pub among : (n : ℕ) → Away n (x ∷ xs) → last ≢ n
  pub turned : Linked (put h last (some (cell stored.pb (some a)))) (x ∷ xs) (some a)

pub turn_last :
    (h : Heap) (x : ℕ × PacketBuffer) (xs : Cells) (a : ℕ)
    → Linked h (x ∷ xs) none
    → NoDuplicate (x ∷ xs)
    → Turned h x xs a
turn_last h x [] a l d = record {
  last = x.0;
  stored = cell x.1 none;
  is_last = refl;
  found = l.0;
  among = λ n w. w.0;
  turned = (ground arith, tt);
}
turn_last h x (y ∷ ys) a l d =
    let t = turn_last h y ys a l.1 d.1 in
    record {
      last = t.last;
      stored = t.stored;
      is_last = t.is_last;
      found = t.found;
      among = λ n w. t.among n w.1;
      turned = (put-ne h t.last x.0 _ (λ e. t.among x.0 d.0 (sym e)) ∙ l.0, t.turned);
    }

pub append-NoDuplicate :
    (xs : Cells) (y : ℕ × PacketBuffer) → NoDuplicate xs → Away y.0 xs → NoDuplicate (xs ++ y ∷ [])
append-NoDuplicate [] y d w = (tt, tt)
append-NoDuplicate (x ∷ xs) y d w =
    (Away-append xs y x.0 d.0 (λ e. w.0 (sym e)), append-NoDuplicate xs y d.1 w.1)
  where
    Away-append :
        (xs : Cells) (y : ℕ × PacketBuffer) (a : ℕ) → Away a xs → y.0 ≢ a → Away a (xs ++ y ∷ [])
    Away-append [] y a w n = (n, tt)
    Away-append (x ∷ xs) y a w n = (w.0, Away-append xs y a w.1 n)

pub split-Away : (a : ℕ) (xs ys : Cells) → Away a (xs ++ ys) → Away a xs × Away a ys
split-Away a [] ys w = (tt, w)
split-Away a (x ∷ xs) ys w = let (p, q) = split-Away a xs ys w.1 in ((w.0, p), q)

-- The front of a list without duplicates has none of the addresses of its back.
pub split-NoDuplicate :
    (xs ys : Cells) → NoDuplicate (xs ++ ys) → All (λ y. Away y.0 xs) ys × NoDuplicate ys
split-NoDuplicate [] ys d = (nowhere ys, d)
  where
    nowhere : (ys : Cells) → All (λ y. Away y.0 []) ys
    nowhere [] = tt
    nowhere (y ∷ ys) = (tt, nowhere ys)
split-NoDuplicate (x ∷ xs) ys d =
    let (front, back) = split-NoDuplicate xs ys d.1 in
    (both ys (split-Away x.0 xs ys d.0).1 front, back)
  where
    both : (zs : Cells) → Away x.0 zs → All (λ y. Away y.0 xs) zs → All (λ y. Away y.0 (x ∷ xs)) zs
    both [] w f = tt
    both (z ∷ zs) w f = ((λ e. w.0 (sym e), f.0), both zs w.1 f.1)

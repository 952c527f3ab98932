-- ===== src/Replace.antt =====
-- `str_replace` of alclib/alc_rx.c, which puts the numbers of an object into the template of its
-- file name. A string is the list of its characters, without the 0 at its end. A pointer into the
-- needle is the list of the characters that are still to be compared, in the order in which they
-- are.
pub mod Scan
pub mod Back
pub mod Once
mod Tests
use route.Base.{
  ℕ, ◌+◌, ◌-◌, Bool, true, false, ◌&&◌, Option, none, some, List, [], ◌∷◌, ◌++◌, ◌==◌, ltb, leb,
  if◌then◌else◌, length, take, drop,
}

-- `overrun`: the read and the write pointer pass each other, or a write is outside the buffer.
pub data Replaced : Type 0 where
  success : List ℕ → Replaced
  failure : Replaced
  overrun : Replaced

-- `locate_forward`, and `locate_backward` on the needle from its end: whether the needle is
-- complete, and the pointer after the call.
unfoldable pub found : List ℕ → ℕ → Bool
found [] c = false
found (x ∷ []) c = x == c
found (x ∷ y ∷ rest) c = false

unfoldable pub next : List ℕ → List ℕ → ℕ → List ℕ
next needle [] c = needle
next needle (x ∷ []) c = needle
next needle (x ∷ y ∷ rest) c = if x == c then y ∷ rest else needle

-- A new needle that is not longer: the characters read, and those written.
unfoldable pub shrink : List ℕ → List ℕ → List ℕ → List ℕ → List ℕ → List ℕ
unfolding found next
shrink needle new ptr [] out = out
shrink needle new ptr (c ∷ cs) out =
    let out' = out ++ c ∷ [] in
    shrink needle new (next needle ptr c) cs
      (if found ptr c then take (length out' - length needle) out' ++ new else out')

-- A longer one: the first pass gives how far the write pointer is ahead of the read pointer at the
-- end, `none` where there is no room.
unfoldable pub forward : List ℕ → List ℕ → List ℕ → ℕ → ℕ → ℕ → ℕ → Option ℕ
unfolding found next
forward needle ptr [] i ahead diff size = some ahead
forward needle ptr (c ∷ cs) i ahead diff size =
    let ahead' = if found ptr c then ahead + diff else ahead in
    let further = forward needle (next needle ptr c) cs (i + 1) ahead' diff size in
    if leb size (i + ahead') then none else further

-- The second pass, over the characters from the last one on; what is written is `out`.
unfoldable pub backward : List ℕ → List ℕ → List ℕ → List ℕ → ℕ → ℕ → List ℕ → Replaced
unfolding found next
backward needle new ptr [] ahead diff out = if ahead == 0 then success out else overrun
backward needle new ptr (c ∷ cs) ahead diff out =
    let hit = found ptr c in
    let further =
      backward needle new (next needle ptr c) cs (if hit then ahead - diff else ahead) diff
        (if hit then new ++ drop (length needle) (c ∷ out) else c ∷ out) in
    if hit && ltb ahead diff then overrun else further

unfoldable pub reverse_onto : List ℕ → List ℕ → List ℕ
reverse_onto [] out = out
reverse_onto (c ∷ cs) out = reverse_onto cs (c ∷ out)

-- The 0 behind the end of the string is the first that the second pass writes.
abbrev pub expanded : List ℕ → ℕ → List ℕ → List ℕ → Option ℕ → Replaced
expanded haystack haystacksize needle new none = failure
expanded haystack haystacksize needle new (some ahead) =
    let last_first = reverse_onto needle [] in
    if leb haystacksize (length haystack + ahead)
    then overrun
    else backward last_first new last_first (reverse_onto haystack []) ahead
        (length new - length needle) []

unfoldable pub str_replace : List ℕ → ℕ → List ℕ → List ℕ → Replaced
unfolding shrink forward backward
str_replace haystack haystacksize oldneedle newneedle =
    if length oldneedle == 0
    then success haystack
    else if leb (length newneedle) (length oldneedle)
    then success (shrink oldneedle newneedle oldneedle haystack [])
    else expanded haystack haystacksize oldneedle newneedle (
        forward oldneedle oldneedle haystack 0 0 (length newneedle - length oldneedle) haystacksize)

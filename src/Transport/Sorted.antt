-- ===== src/Transport/Sorted.antt =====
-- Lists of units in the order of their symbol numbers, without duplicates.
use route.Base.{ℕ, ◌<◌, ◌≢◌, arith, List, [], ◌∷◌, All}
use route.Transport.{TransUnit}

-- Every unit of the list has a number above `n`.
abbrev pub Above : ℕ → List TransUnit → Type 0
Above n = All (λ u. n < u.esi)

abbrev pub IsSorted : List TransUnit → Type 0
IsSorted [] = Unit
IsSorted (u ∷ us) = Above u.esi us × IsSorted us

-- No unit of the list has the number `n`.
abbrev pub Lacks : ℕ → List TransUnit → Type 0
Lacks n = All (λ u. u.esi ≢ n)

pub Above-trans : (n m : ℕ) (us : List TransUnit) → n < m → Above m us → Above n us
Above-trans n m [] h a = tt
Above-trans n m (u ∷ us) h a = (omega arith, Above-trans n m us h a.1)

pub Above-Lacks : (n : ℕ) (us : List TransUnit) → Above n us → Lacks n us
Above-Lacks n [] a = tt
Above-Lacks n (u ∷ us) a = ((λ e. omega arith), Above-Lacks n us a.1)

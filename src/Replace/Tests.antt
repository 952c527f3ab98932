-- ===== src/Replace/Tests.antt =====
-- Templates of file names: $ is 36, TOI is 84, 79, 73.
use route.Base.{ℕ, ◌≡◌, refl, arith, List, [], ◌∷◌, ◌++◌}
use route.Replace.{success, failure, overrun, reverse_onto, str_replace}
use route.Replace.Once.{str_replace-once}

abbrev toi : List ℕ
toi = 36 ∷ 84 ∷ 79 ∷ 73 ∷ 36 ∷ []

abbrev digits : List ℕ
digits = 49 ∷ 50 ∷ 51 ∷ 52 ∷ 53 ∷ 54 ∷ []

str_replace-once_example :
    str_replace (97 ∷ 98 ∷ [] ++ (toi ++ 46 ∷ [])) 64 toi digits
    ≡ success (97 ∷ 98 ∷ [] ++ (digits ++ 46 ∷ []))
unfolding reverse_onto
str_replace-once_example =
    str_replace-once (97 ∷ 98 ∷ []) (46 ∷ []) digits 64 36 (84 ∷ 79 ∷ 73 ∷ 36 ∷ []) 36
      (73 ∷ 79 ∷ 84 ∷ 36 ∷ []) refl ((λ e. omega arith), ((λ e. omega arith), tt))
      ((λ e. omega arith), tt) ((λ e. omega arith), ((λ e. omega arith), tt))
      ((λ e. omega arith), tt) (omega arith)

-- The result has 7 characters and the 0 behind them.
no_room : str_replace (97 ∷ toi) 6 toi digits ≡ failure
unfolding str_replace
no_room = refl

no_room_for_end : str_replace (toi ++ 97 ∷ []) 7 toi digits ≡ overrun
unfolding str_replace
no_room_for_end = refl

-- A partial match in front of the needle: it is missed, or found by the second pass alone.
missed : str_replace (36 ∷ toi) 64 toi (49 ∷ []) ≡ success (36 ∷ toi)
unfolding str_replace
missed = refl

found_by_second : str_replace (36 ∷ toi) 64 toi digits ≡ overrun
unfolding str_replace reverse_onto
found_by_second = refl

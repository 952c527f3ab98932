-- ===== src/Queue/Tests.antt =====
-- The theorems on the queue at concrete inputs.
use route.Base.{ℕ, ◌≡◌, arith, none, List, [], ◌∷◌}
use route.Queue.{Time, Container, push_back, push_front}
use route.Queue.Age.{push-aborts}

abbrev at_time : ℕ → ℕ → Time
at_time s us = record { tv_sec = s; tv_usec = us }

abbrev container : ℕ → Time → Container
container b t = record { time_stamp = t; bytes = b ∷ [] }

push-aborts_example :
    (push_back [] (container 1 (at_time 50 900000)) (at_time 51 100000) ≡ none)
    × (push_front [] (container 1 (at_time 50 900000)) (at_time 51 100000) ≡ none)
push-aborts_example =
    push-aborts [] (container 1 (at_time 50 900000)) (at_time 51 100000) (omega arith) (omega arith)
      (omega arith) (omega arith)

abbrev two_new : List (Container × Time)
two_new = (container 1 (at_time 0 0), at_time 50 1) ∷ (container 2 (at_time 0 0), at_time 50 7) ∷ []

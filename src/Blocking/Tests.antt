-- ===== src/Blocking/Tests.antt =====
-- Runs of the blocking algorithm and the theorems at concrete inputs.
use route.Base.{◌≡◌, refl, true, some, arith, ltb}
use route.Blocking.{
  BlockingStruct, compute_blocking_structure, update_blocking_structure, ok, fault,
}
use route.Blocking.Division.{ceiling}
use route.Blocking.Partition.{IsPartition, compute-IsPartition}
use route.Blocking.Update.{FollowsSymbol, symbol_of, update-FollowsSymbol}

compute_runs :
    compute_blocking_structure true 1000 8 100
    ≡ ok (record { n = 2; i = 100; a_large = 5; a_small = 5 })
unfolding compute_blocking_structure
compute_runs = refl

compute_empty : compute_blocking_structure true 0 8 100 ≡ fault
unfolding compute_blocking_structure
compute_empty = refl

update_runs :
    update_blocking_structure (record { n = 2; i = 100; a_large = 5; a_small = 5 }) 1000 8 60
    ≡ some (record { n = 2; i = 2; a_large = 5; a_small = 10 }, true)
unfolding update_blocking_structure
update_runs = refl

compute-IsPartition_example :
    (bs : BlockingStruct) × (compute_blocking_structure true 1000 8 100 ≡ ok bs)
    × IsPartition (ceiling 1000 100) 8 100 bs
compute-IsPartition_example =
    compute-IsPartition 1000 8 100 (omega arith) (omega arith) (omega arith) (omega arith)
      (omega arith) (omega arith) (omega arith)

abbrev before_update : BlockingStruct
before_update = record { n = 2; i = 100; a_large = 5; a_small = 5 }

update-FollowsSymbol_example :
    (bs' : BlockingStruct) × (update_blocking_structure before_update 1000 8 60
      ≡ some (bs', ltb 60 100))
    × FollowsSymbol before_update (ceiling 1000 (symbol_of before_update 60)) 8 60 bs' (ltb 60 100)
update-FollowsSymbol_example =
    update-FollowsSymbol before_update 1000 8 60 (omega arith) (omega arith) (omega arith)
      (omega arith) (omega arith) (omega arith)

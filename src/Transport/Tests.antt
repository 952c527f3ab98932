-- ===== src/Transport/Tests.antt =====
-- The theorems on transport units and objects at concrete inputs.
use route.Base.{ℕ, ◌≡◌, arith, refl, [], ◌∷◌}
use mathlib.Core.List.{Perm}
use route.Transport.{
  TransUnit, TransBlock, TransObj, create_block, create_object, insert_unit, insert_object,
  ObjectLists,
}
use route.Transport.Insert.{IsReceiving, insert_unit-IsReceiving}
use route.Transport.Order.{insert_both, insert_unit-commutes}
use route.Transport.Objects.{IsOrdered, lists_of, insert_object-IsOrdered}

abbrev unit_of : ℕ → TransUnit
unit_of n = record { esi = n; len = 4; bytes = 1 ∷ 2 ∷ 3 ∷ n ∷ [] }

abbrev block : TransBlock
block = record create_block { unit_list = unit_of 2 ∷ unit_of 5 ∷ []; nb_of_rx_units = 2 }

abbrev object : TransObj
object = record create_object { len = 14; rx_bytes = 8 }

block-IsReceiving : IsReceiving block object
block-IsReceiving = record {
  sorted = ((omega arith, tt), (tt, tt));
  counted = refl;
  bounded = omega arith;
}

insert_unit-IsReceiving_example :
    IsReceiving (insert_unit (unit_of 3) block object).1 (insert_unit (unit_of 3) block object).2
insert_unit-IsReceiving_example =
    insert_unit-IsReceiving (unit_of 3) block object block-IsReceiving (omega arith)

insert_unit-commutes_example :
    insert_both (unit_of 7) (unit_of 3) block object
    ≡ insert_both (unit_of 3) (unit_of 7) block object
insert_unit-commutes_example =
    insert_unit-commutes (unit_of 7) (unit_of 3) block object block-IsReceiving (λ e. omega arith)
      (omega arith)

abbrev lists : ObjectLists
lists = record {
  fdt_list = [];
  obj_list = record create_object { toi = 1 } ∷ record create_object { toi = 4 } ∷ [];
}

insert_object-IsOrdered_example :
    let s' = insert_object (record create_object { toi = 4; len = 9 }) lists 1 in
    IsOrdered (lists_of s' 1).0
    × Perm (lists_of s' 1).0 (record create_object { toi = 4; len = 9 } ∷ (lists_of lists 1).0)
    × ((lists_of s' 1).1 ≡ (lists_of lists 1).1)
insert_object-IsOrdered_example =
    insert_object-IsOrdered (record create_object { toi = 4; len = 9 }) lists 1
      ((omega arith, tt), (tt, tt))

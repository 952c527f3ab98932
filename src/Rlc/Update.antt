-- ===== src/Rlc/Update.antt =====
-- The lists that each packet of a session ages: `mad_rlc_update_late_list` and
-- `mad_rlc_update_loss_list` of alclib/mad_rlc.c.
use route.Base.{ℕ, zero, suc, ◌+◌, Option, none, some, List, [], ◌∷◌, leb, ◌==◌, if◌then◌else◌}
use route.Rlc.{
  Late, Session, Code, success, failure, drop_layer, dec16, dec32, missing, without_late, add_lost,
}

-- The list of a layer without its first late packet whose time has passed.
abbrev pub expire : ℕ → List Late → Option (List Late)
expire now [] = none
expire now (l ∷ ls) =
    if leb l.losttime now
    then some ls
    else elim (expire now ls) [ none ↦ none | some rest ↦ some (l ∷ rest) ]

-- How `mad_rlc_update_late_list` ends: with 0, with -1, or by reading the element it has freed.
pub data LateUpdate : Type 0 where
  updated : Session → LateUpdate
  dropped : Session → LateUpdate
  use_after_free : LateUpdate

-- A lost packet that does not drop the layer leaves `current` at the freed element.
abbrev pub after_loss : Code × Session → LateUpdate
after_loss (drop_layer, s) = dropped s
after_loss (success, s) = use_after_free
after_loss (failure, s) = use_after_free

abbrev pub expired : Session → ℕ → ℕ → Option (List Late) → LateUpdate
expired s layer now none = updated s
expired s layer now (some rest) = after_loss (add_lost (without_late s layer rest) now)

-- The layers from `layer` on, `n` of them.
unfoldable pub update_layers : ℕ → Session → ℕ → ℕ → LateUpdate
update_layers zero s layer now = updated s
update_layers (suc n) s layer now = elim (expire now (missing s layer)) [
  | none ↦ update_layers n s (layer + 1) now
  | some rest ↦ expired s layer now (some rest)
]

abbrev pub update_late_list : Session → ℕ → LateUpdate
update_late_list s now = update_layers s.nb_channel s 0 now

-- The losses that stay, and the counter.
abbrev pub age_losses : List ℕ → ℕ → List ℕ × ℕ
age_losses [] nblost = ([], nblost)
age_losses (pkt_remaining ∷ ls) nblost =
    if dec32 pkt_remaining == 0
    then age_losses ls (dec16 nblost)
    else (dec32 pkt_remaining ∷ (age_losses ls nblost).0, (age_losses ls nblost).1)

unfoldable pub update_loss_list : Session → Session
update_loss_list s =
    let (rx_lost, rx_nblost) = age_losses s.rlc.rx_lost s.rlc.rx_nblost in
    record s { rlc = record s.rlc { rx_lost = rx_lost; rx_nblost = rx_nblost } }

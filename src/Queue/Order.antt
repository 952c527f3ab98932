-- ===== src/Queue/Order.antt =====
-- The queue is first in, first out.
use route.Base.{
  ℕ, zero, suc, ◌≡◌, ◌≢◌, arith, refl, ap, ◌∙◌, Option, none, some, List, [], ◌∷◌, ◌++◌, map,
  length, All,
}
use route.Queue.{Time, Container, push_back, pop_front, prepare_insert}

-- New containers, one after the other, at the end of the queue.
abbrev pub push_all : List Container → List (Container × Time) → Option (List Container)
push_all q [] = some q
push_all q ((c, now) ∷ rest) = elim (push_back q c now) [ none ↦ none | some q' ↦ push_all q' rest ]

-- As many containers as `n` calls take.
abbrev pub pop_all : ℕ → List Container → List (Option Container)
pop_all zero q = []
pop_all (suc n) q = let (c, q') = pop_front q in c ∷ pop_all n q'

abbrev pub stamped : Container × Time → Container
stamped (c, now) = record c { time_stamp = now }

-- Not yet stamped, and inserted at a time that is not 0.
abbrev pub IsNew : Container × Time → Type 0
IsNew (c, now) = (c.time_stamp.tv_sec ≡ 0) × (now.tv_sec ≢ 0)

push_back-new :
    (q : List Container) (c : Container) (now : Time)
    → IsNew (c, now)
    → push_back q c now ≡ some (q ++ record c { time_stamp = now } ∷ [])
unfolding push_back prepare_insert
push_back-new q c now (z, n) = ground arith

append_assoc : (xs ys zs : List Container) → (xs ++ ys) ++ zs ≡ xs ++ (ys ++ zs)
append_assoc [] ys zs = refl
append_assoc (x ∷ xs) ys zs = ap (λ t. x ∷ t) (append_assoc xs ys zs)

append_nil : (xs : List Container) → xs ++ [] ≡ xs
append_nil [] = refl
append_nil (x ∷ xs) = ap (λ t. x ∷ t) (append_nil xs)

pub push_all-append :
    (q : List Container) (new : List (Container × Time))
    → All IsNew new
    → push_all q new ≡ some (q ++ map stamped new)
push_all-append q [] v = rw (append_nil q) refl
push_all-append q ((c, now) ∷ rest) v =
    rw
      (
        push_all,
        push_back-new q c now v.0,
        push_all-append (q ++ record c { time_stamp = now } ∷ []) rest v.1,
        append_assoc q (record c { time_stamp = now } ∷ []) (map stamped rest),
      )
      refl

pop_all-some : (q : List Container) → pop_all (length q) q ≡ map (λ c. some c) q
unfolding pop_front
pop_all-some [] = refl
pop_all-some (c ∷ q) = ap (λ t. some c ∷ t) (pop_all-some q)

map_twice :
    (new : List (Container × Time))
    → map (λ c. some c) (map stamped new) ≡ map (λ p. some (stamped p)) new
map_twice [] = refl
map_twice (p ∷ rest) = ap (λ t. some (stamped p) ∷ t) (map_twice rest)

-- New containers that enter an empty queue at its end leave it from its front in their order, each
-- with the time of its insertion.
pub pop_all-push_all :
    (new : List (Container × Time))
    → All IsNew new
    → (q : List Container) × (push_all [] new ≡ some q)
      × (pop_all (length q) q ≡ map (λ p. some (stamped p)) new)
pop_all-push_all new v =
    (map stamped new, push_all-append [] new v, pop_all-some (map stamped new) ∙ map_twice new)

-- ===== src/Queue.antt =====
-- The queue of received containers: alclib/alc_list.c. The chain from `first_elem` to `last_elem`
-- is the list of its containers; a call holds the lock from its start to its end. Times are those
-- of `gettimeofday`, read once for a call.
pub mod Age
pub mod Order
mod Tests
use route.Base.{
  ℕ, ◌+◌, ◌*◌, ◌^◌, Bool, true, false, Option, none, some, List, [], ◌∷◌, ◌++◌, ltb, ◌==◌,
  if◌then◌else◌,
}

-- `struct timeval`
pub record Time : Type 0 where
  pub tv_sec : ℕ
  pub tv_usec : ℕ

-- `alc_rcv_container_t`, with what it holds as a list of bytes.
pub record Container : Type 0 where
  pub time_stamp : Time
  pub bytes : List ℕ

-- What `prepare_insert` comes to: a node, NULL, or an assertion that fails.
pub data Prepared : Type 0 where
  node : Container → Prepared
  too_old aborted : Prepared

-- `container_age` in millionths is the difference of these two: the seconds are not scaled.
abbrev pub ticks : Time → ℕ
ticks t = t.tv_sec + t.tv_usec

unfoldable pub prepare_insert : Container → Time → Prepared
prepare_insert c now =
    if c.time_stamp.tv_sec == 0
    then (if now.tv_sec == 0 then aborted else node (record c { time_stamp = now }))
    else if ltb (ticks now) (ticks c.time_stamp)
    then aborted
    else if ltb (ticks c.time_stamp + 3 * 10 ^ 6) (ticks now)
    then too_old
    else node c

-- The queue after an insertion; `none` is the failed assertion.
abbrev pub inserted :
    (Container → List Container) → List Container → Prepared → Option (List Container)
inserted link q (node c) = some (link c)
inserted link q too_old = some q
inserted link q aborted = none

unfoldable pub push_back : List Container → Container → Time → Option (List Container)
push_back q c now = inserted (λ c'. q ++ c' ∷ []) q (prepare_insert c now)

unfoldable pub push_front : List Container → Container → Time → Option (List Container)
push_front q c now = inserted (λ c'. c' ∷ q) q (prepare_insert c now)

-- The container, if there is one, and the queue.
pub pop_front : List Container → Option Container × List Container
pop_front [] = (none, [])
pop_front (c ∷ q) = (some c, q)

pub is_empty : List Container → Bool
is_empty [] = true
is_empty (c ∷ q) = false

-- ===== src/Queue/Age.antt =====
-- The age test of `prepare_insert`, against the time that has really passed.
use route.Base.{ℕ, ◌+◌, ◌*◌, ◌^◌, ◌≤◌, ◌<◌, ◌≡◌, ◌≢◌, arith, none, List}
use route.Queue.{Time, Container, too_old, prepare_insert, push_back, push_front}

-- The microseconds of a time.
abbrev pub micros : Time → ℕ
micros t = t.tv_sec * 10 ^ 6 + t.tv_usec

-- A container that comes back to the queue, at either end, in another second than it was stamped
-- in, but less than 999999 microseconds later, makes an assertion fail.
pub push-aborts :
    (q : List Container) (c : Container) (now : Time)
    → 0 < c.time_stamp.tv_sec
    → c.time_stamp.tv_usec < 10 ^ 6
    → c.time_stamp.tv_sec < now.tv_sec
    → micros now < micros c.time_stamp + 999999
    → (push_back q c now ≡ none) × (push_front q c now ≡ none)
unfolding push_back push_front prepare_insert
push-aborts q c now stamped valid later soon = ground arith

-- A container that is up to two million seconds old is not discarded, although the test is meant
-- to discard it after three seconds.
pub prepare_insert-keeps :
    (c : Container) (now : Time)
    → now.tv_usec < 10 ^ 6
    → micros now ≤ micros c.time_stamp + 2 * 10 ^ 12
    → prepare_insert c now ≢ too_old
unfolding prepare_insert
prepare_insert-keeps c now valid old e = ground arith

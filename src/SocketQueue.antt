-- ===== src/SocketQueue.antt =====
-- router/router_socket/iterable_chan.go: `IterableChan`, the queue of a route's sockets. A socket
-- is its pointer, a number. Channel operations run to their end here; Steps.antt interleaves them.
pub mod Polling
pub mod AtRest
pub mod Steps
pub mod Counting
pub mod Races
pub mod Order
mod Tests
use crank4go.Base.{
  ℕ, zero, suc, ◌+◌, ◌≡◌, Bool, true, false, not, Option, none, some, List, [], ◌∷◌, ◌++◌, length,
  elem, erase, store, ltb, leb, ◌==◌, if◌then◌else◌, ℤ, pos, negsuc, inc32, dec32, to_int32,
}

abbrev pub default_chan_capacity : ℕ
default_chan_capacity = 200

-- `length` is the bit pattern of the int32 counter.
pub record IterableChan : Type 0 where
  pub ch : List ℕ
  pub capacity : ℕ
  pub alive_socket_set : List ℕ
  pub length : ℕ

abbrev pub make_chan : ℕ → IterableChan
make_chan capacity = record { ch = []; capacity = capacity; alive_socket_set = []; length = 0 }

-- A negative capacity panics.
unfoldable pub new_iterable_chan : ℤ → Option IterableChan
new_iterable_chan (negsuc n) = none
new_iterable_chan (pos n) = some (make_chan (if n == 0 then default_chan_capacity else n))

-- The set in the order of the list; `sync.Map.Range` promises none.
abbrev pub alive_socket_slice : IterableChan → List ℕ
alive_socket_slice c = c.alive_socket_set

unfoldable pub is_empty : IterableChan → Bool
is_empty c = length c.ch == 0

unfoldable pub len : IterableChan → ℕ
len c = length c.ch

unfoldable pub len_alive : IterableChan → ℤ
len_alive c = to_int32 c.length

-- `LenAlive() == 0`, on the bit pattern.
unfoldable pub is_alive_socket_set_empty : IterableChan → Bool
is_alive_socket_set_empty c = c.length == 0

unfoldable pub increment_alive_socket_number : IterableChan → IterableChan
increment_alive_socket_number c = record c { length = inc32 c.length }

unfoldable pub decrement_alive_socket_number : IterableChan → IterableChan
decrement_alive_socket_number c = record c { length = dec32 c.length }

-- `aliveSocketSet.LoadAndDelete`, with `loaded`.
abbrev pub load_and_delete : ℕ → IterableChan → IterableChan × Bool
load_and_delete p c =
    if elem p c.alive_socket_set
    then (record c { alive_socket_set = erase p c.alive_socket_set }, true)
    else (c, false)

unfoldable pub remove : IterableChan → Option ℕ → IterableChan × Bool
unfolding decrement_alive_socket_number
remove c none = (c, false)
remove c (some p) =
    let (c', loaded) = load_and_delete p c in
    if loaded then (decrement_alive_socket_number c', true) else (c', false)

-- The three steps of the goroutine that `Offer` starts. The send waits while the channel is full.
unfoldable pub send : ℕ → IterableChan → Option IterableChan
send p c = if ltb (length c.ch) c.capacity then some (record c { ch = c.ch ++ p ∷ [] }) else none

unfoldable pub store_alive : ℕ → IterableChan → IterableChan
store_alive p c = record c { alive_socket_set = store p c.alive_socket_set }

-- The goroutine that `Offer` starts and does not wait for, in one piece: `none` while there is no room.
unfoldable pub push : ℕ → IterableChan → Option IterableChan
unfolding send store_alive increment_alive_socket_number
push p c = elim (send p c) [
  | none ↦ none
  | some sent ↦ some (increment_alive_socket_number (store_alive p sent))
]

-- One round of `Poll` has taken `p` from the channel.
unfoldable pub poll_list : List ℕ → IterableChan → IterableChan × Option ℕ
unfolding decrement_alive_socket_number
poll_list [] c = (record c { ch = [] }, none)
poll_list (p ∷ rest) c =
    let again = poll_list rest c in
    if elem p c.alive_socket_set
    then (
      decrement_alive_socket_number
          (record c { ch = rest; alive_socket_set = erase p c.alive_socket_set }),
      some p,
    )
    else again

unfoldable pub poll : IterableChan → IterableChan × Option ℕ
unfolding poll_list
poll c = poll_list c.ch c

-- A socket that another goroutine sends while `PollTimeout` waits on the empty channel, and whether
-- it is in the alive set when `PollTimeout` looks; `late round` is the elapsed-time test after a
-- dead socket. When no arrival is left the timeout fires.
unfoldable pub wait_arrivals : (ℕ → Bool) → ℕ → List (ℕ × Bool) → Option ℕ
wait_arrivals late round [] = none
wait_arrivals late round ((p, alive) ∷ arrivals) =
    let again = wait_arrivals late (round + 1) arrivals in
    if alive then some p else if late round then none else again

-- The rounds of `PollTimeout` on the sockets in the channel.
unfoldable pub poll_timeout_list :
    (ℕ → Bool) → ℕ → List (ℕ × Bool) → List ℕ → IterableChan → IterableChan × Option ℕ
unfolding wait_arrivals decrement_alive_socket_number
poll_timeout_list late round arrivals [] c =
    (record c { ch = [] }, wait_arrivals late round arrivals)
poll_timeout_list late round arrivals (p ∷ rest) c =
    let again = poll_timeout_list late (round + 1) arrivals rest c in
    if elem p c.alive_socket_set
    then (
      decrement_alive_socket_number
          (record c { ch = rest; alive_socket_set = erase p c.alive_socket_set }),
      some p,
    )
    else if late round
    then (record c { ch = rest }, none)
    else again

unfoldable pub poll_timeout : (ℕ → Bool) → List (ℕ × Bool) → IterableChan → IterableChan × Option ℕ
unfolding poll_timeout_list
poll_timeout late arrivals c = poll_timeout_list late 0 arrivals c.ch c

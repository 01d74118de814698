-- ===== src/SocketQueue/Tests.antt =====
-- Runs of the queue, and the theorems about it at concrete queues.
use crank4go.Base.{
  ℕ, List, ◌+◌, ◌≤◌, ◌≡◌, refl, ◌⊎◌, true, false, none, some, [], ◌∷◌, arith, length, count, elem,
  erase, store, pos,
}
use crank4go.SocketQueue.{
  IterableChan, make_chan, poll, poll_timeout, send, store_alive, increment_alive_socket_number,
  len_alive, is_alive_socket_set_empty,
}
use crank4go.SocketQueue.Polling.{poll_timeout-eq-poll, poll_timeout-alive, Arrives}
use crank4go.SocketQueue.Order.{
  Call, runs, offers, removes, polls, accepted, handed, was_there, replies, list_replies, offered,
  replies-list_replies,
}
use crank4go.SocketQueue.Steps.{Machine, start, offers, sends, stores, counts, Reach, here, next}
use crank4go.SocketQueue.Counting.{ch-within_capacity, handed_once, len_alive-length}
use crank4go.SocketQueue.Races.{lost, lost_queue, lost_socket}

-- Socket 4 was removed while it waited in the channel.
abbrev two_sockets : IterableChan
two_sockets = record {
  ch = 4 ∷ 5 ∷ 6 ∷ [];
  capacity = 200;
  alive_socket_set = 5 ∷ 6 ∷ [];
  length = 2;
}

polled_two :
    poll two_sockets
    ≡ (record two_sockets { ch = 6 ∷ []; alive_socket_set = 6 ∷ []; length = 1 }, some 5)
unfolding poll erase count
polled_two = refl

poll_timeout-eq-poll_example : poll_timeout (λ i. false) [] two_sockets ≡ poll two_sockets
poll_timeout-eq-poll_example = poll_timeout-eq-poll (λ i. false) two_sockets (λ i. refl)

-- Socket 9 arrives alive while the request waits on a queue of dead sockets.
abbrev dead_socket : IterableChan
dead_socket = record { ch = 4 ∷ []; capacity = 200; alive_socket_set = []; length = 0 }

arrived : (poll_timeout (λ i. false) ((8, false) ∷ (9, true) ∷ []) dead_socket).1 ≡ some 9
unfolding poll_timeout count
arrived = refl

poll_timeout-alive_example :
    (elem 9 dead_socket.alive_socket_set ≡ true) ⊎ Arrives 9 ((8, false) ∷ (9, true) ∷ [])
poll_timeout-alive_example =
    poll_timeout-alive (λ i. false) ((8, false) ∷ (9, true) ∷ []) dead_socket arrived

-- One socket is offered, sent, stored and counted.
abbrev sent_queue : IterableChan
sent_queue = record (make_chan 2) { ch = 7 ∷ [] }

abbrev counted : Machine
counted = record (start 2) {
  queue = record sent_queue { alive_socket_set = 7 ∷ []; length = 1 };
  offered = 7 ∷ [];
}

counted-Reach : Reach (start 2) counted
unfolding send store_alive increment_alive_socket_number count erase store
counted-Reach =
    let offered_one = record (start 2) { senders = 7 ∷ []; offered = 7 ∷ [] } in
    let sent_one = record (start 2) { queue = sent_queue; storing = 7 ∷ []; offered = 7 ∷ [] } in
    let stored_one = record (start 2) {
      queue = record sent_queue { alive_socket_set = 7 ∷ [] };
      counting = 7 ∷ [];
      offered = 7 ∷ [];
    } in
    next
      (next
        (next (next here (offers (start 2) 7)) (sends offered_one 7 sent_queue (omega arith) refl))
        (stores sent_one 7 (omega arith)))
      (counts stored_one 7 (omega arith))

ch-within_capacity_example : length counted.queue.ch ≤ 2
ch-within_capacity_example = ch-within_capacity 2 counted-Reach

handed_once_example : count 7 counted.handed + count 7 counted.removed ≤ count 7 counted.offered
handed_once_example = handed_once 2 7 counted-Reach

offered_seven : (p : ℕ) → count p counted.offered ≤ 1
unfolding count
offered_seven p = ground arith

len_alive-length_example : len_alive counted.queue ≡ pos (length counted.queue.alive_socket_set)
len_alive-length_example = len_alive-length 2 counted-Reach offered_seven refl refl (omega arith)

lost_socket_example :
    Reach (start 2) (lost 7 2)
    × (poll (lost_queue 7 2) ≡ (lost_queue 7 2, none))
    × (is_alive_socket_set_empty (lost_queue 7 2) ≡ false)
lost_socket_example = lost_socket 7 2 (omega arith)

-- The second of three sockets is removed while it waits; the goroutine of the third runs late.
abbrev calls : List Call
calls =
    offers 4
    ∷ polls
    ∷ offers 5
    ∷ runs 4
    ∷ offers 6
    ∷ runs 5
    ∷ removes 5
    ∷ polls
    ∷ polls
    ∷ runs 6
    ∷ removes 5
    ∷ polls
    ∷ []

handed_in_order :
    list_replies calls [] []
    ≡ accepted
      ∷ handed none
      ∷ accepted
      ∷ accepted
      ∷ was_there true
      ∷ handed (some 4)
      ∷ handed none
      ∷ was_there false
      ∷ handed (some 6)
      ∷ []
unfolding list_replies count erase
handed_in_order = refl

offered_once : (q : ℕ) → count q (offered calls) ≤ 1
unfolding count
offered_once q = ground arith

replies-list_replies_example : replies calls [] (make_chan 3) ≡ some (list_replies calls [] [])
replies-list_replies_example = replies-list_replies calls 3 offered_once (omega arith)

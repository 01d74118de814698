-- ===== src/SocketQueue/Races.antt =====
-- The race between the goroutine of `Offer` and a poll.
use crank4go.Base.{ℕ, ◌<◌, ◌≡◌, refl, false, none, [], ◌∷◌, arith, count, erase, store}
use mathlib.Core.Path.{subst}
use crank4go.SocketQueue.{
  IterableChan, make_chan, send, store_alive, increment_alive_socket_number, poll, poll_list,
  is_alive_socket_set_empty,
}
use crank4go.SocketQueue.Steps.{
  Machine, start, Step, offers, sends, stores, counts, receives, misses, Reach, here, next,
}

-- A queue that counts one alive socket and has none in its channel.
abbrev pub lost_queue : ℕ → ℕ → IterableChan
lost_queue p capacity = record {
  ch = [];
  capacity = capacity;
  alive_socket_set = p ∷ [];
  length = 1;
}

-- Every goroutine has ended.
abbrev pub lost : ℕ → ℕ → Machine
lost p capacity = record (start capacity) { queue = lost_queue p capacity; offered = p ∷ [] }

erase_single : (p : ℕ) → erase p (p ∷ []) ≡ []
unfolding erase
erase_single p = ground arith

count_single : (p : ℕ) → 0 < count p (p ∷ [])
unfolding count
count_single p = ground arith

module _ (p capacity : ℕ) (room : 0 < capacity) where
  offered_machine : Machine
  offered_machine = record (start capacity) { senders = p ∷ []; offered = p ∷ [] }

  sent_machine : Machine
  sent_machine = record (start capacity) {
    queue = record (make_chan capacity) { ch = p ∷ [] };
    storing = p ∷ [];
    offered = p ∷ [];
  }

  missed_machine : Machine
  missed_machine = record (start capacity) { storing = p ∷ []; offered = p ∷ [] }

  to_sent : Step offered_machine sent_machine
  unfolding offered_machine sent_machine send
  to_sent =
      subst (λ ps. Step offered_machine (record sent_machine { senders = ps })) (erase_single p)
        (sends offered_machine p (record (make_chan capacity) { ch = p ∷ [] }) (count_single p)
          (ground arith))

  to_missed : Reach (start capacity) missed_machine
  unfolding offered_machine sent_machine missed_machine count
  to_missed =
      let r₁ = next here (offers (start capacity) p) in
      let r₂ = next (next r₁ to_sent) (receives sent_machine p [] refl) in
      let m = record missed_machine { received = p ∷ [] } in
      subst (λ ps. Reach (start capacity) (record missed_machine { received = ps }))
        (erase_single p) (next r₂ (misses m p (count_single p) refl))

  -- A socket that a poll receives before the goroutine of its `Offer` has stored it is lost to polls:
  -- the queue reaches a state with every goroutine at its end in which it counts one alive socket
  -- and its channel is empty, and in which `Poll` returns nothing and changes nothing.
  pub lost_socket :
      Reach (start capacity) (lost p capacity)
      × (poll (lost_queue p capacity) ≡ (lost_queue p capacity, none))
      × (is_alive_socket_set_empty (lost_queue p capacity) ≡ false)
  unfolding missed_machine store_alive increment_alive_socket_number store count poll poll_list
      is_alive_socket_set_empty
  lost_socket =
      let stored = record missed_machine {
        queue = record (make_chan capacity) { alive_socket_set = p ∷ [] };
        storing = [];
        counting = p ∷ [];
      } in
      let r : Reach (start capacity) stored =
        subst (λ ps. Reach (start capacity) (record stored { storing = ps })) (erase_single p)
          (next to_missed (stores missed_machine p (count_single p))) in
      (
        subst (λ ps. Reach (start capacity) (record (lost p capacity) { counting = ps }))
            (erase_single p) (next r (counts stored p (count_single p))),
        refl,
        refl,
      )

-- ===== src/SocketQueue/Steps.antt =====
-- router/router_socket/iterable_chan.go under concurrency: the goroutines of `Offer`, `Poll` and
-- `Remove` as interleaved atomic steps. `offered`, `handed` and `removed` are histories.
use crank4go.Base.{ℕ, ◌+◌, ◌-◌, ◌<◌, ◌≡◌, true, false, some, List, [], ◌∷◌, count, elem, erase}
use crank4go.SocketQueue.{
  IterableChan, make_chan, send, store_alive, increment_alive_socket_number,
  decrement_alive_socket_number,
}

-- `senders`, `storing` and `counting` are the goroutines of `Offer` before their first, second and
-- third step; `received` are the polls that took a socket and have not looked it up, and
-- `uncounting` the number of polls and removals that deleted a socket and have not counted it off.
pub record Machine : Type 0 where
  pub queue : IterableChan
  pub senders : List ℕ
  pub storing : List ℕ
  pub counting : List ℕ
  pub received : List ℕ
  pub uncounting : ℕ
  pub offered : List ℕ
  pub handed : List ℕ
  pub removed : List ℕ

abbrev pub start : ℕ → Machine
start capacity = record {
  queue = make_chan capacity;
  senders = [];
  storing = [];
  counting = [];
  received = [];
  uncounting = 0;
  offered = [];
  handed = [];
  removed = [];
}

abbrev pub delete_alive : ℕ → IterableChan → IterableChan
delete_alive p c = record c { alive_socket_set = erase p c.alive_socket_set }

-- A socket may be offered again and again: `darkListener` does it to the queue that holds it.
pub data Step : Machine → Machine → Type 0 where
  offers :
      (m : Machine) (p : ℕ) → Step m (record m { senders = p ∷ m.senders; offered = p ∷ m.offered })
  sends :
      (m : Machine) (p : ℕ) (q : IterableChan)
      → 0 < count p m.senders
      → send p m.queue ≡ some q
      → Step m (record m { queue = q; senders = erase p m.senders; storing = p ∷ m.storing })
  stores :
      (m : Machine) (p : ℕ)
      → 0 < count p m.storing
      → Step m (record m {
        queue = store_alive p m.queue;
        storing = erase p m.storing;
        counting = p ∷ m.counting;
      })
  counts :
      (m : Machine) (p : ℕ)
      → 0 < count p m.counting
      → Step m (record m {
        queue = increment_alive_socket_number m.queue;
        counting = erase p m.counting;
      })
  receives :
      (m : Machine) (p : ℕ) (rest : List ℕ)
      → m.queue.ch ≡ p ∷ rest
      → Step m (record m { queue = record m.queue { ch = rest }; received = p ∷ m.received })
  hits :
      (m : Machine) (p : ℕ)
      → 0 < count p m.received
      → elem p m.queue.alive_socket_set ≡ true
      → Step m (record m {
        queue = delete_alive p m.queue;
        received = erase p m.received;
        uncounting = m.uncounting + 1;
        handed = p ∷ m.handed;
      })
  misses :
      (m : Machine) (p : ℕ)
      → 0 < count p m.received
      → elem p m.queue.alive_socket_set ≡ false
      → Step m (record m { received = erase p m.received })
  removes :
      (m : Machine) (p : ℕ)
      → elem p m.queue.alive_socket_set ≡ true
      → Step m (record m {
        queue = delete_alive p m.queue;
        uncounting = m.uncounting + 1;
        removed = p ∷ m.removed;
      })
  discounts :
      (m : Machine)
      → 0 < m.uncounting
      → Step m (record m {
        queue = decrement_alive_socket_number m.queue;
        uncounting = m.uncounting - 1;
      })

pub data Reach (m : Machine) : Machine → Type 0 where
  here : Reach m m
  next : {n k : Machine} → Reach m n → Step n k → Reach m k

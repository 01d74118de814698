-- ===== src/SocketQueue/Counting.antt =====
-- The invariant of the interleaved queue: the counter, the capacity, and where a socket can be.
use crank4go.Base.{
  ℕ, ◌+◌, ◌%◌, ◌<◌, ◌≤◌, ◌≡◌, ◌^◌, refl, ap, ◌∙◌, List, [], ◌∷◌, arith, length, length-append,
  count, count-append, count-erase, length-erase, store, length-store, count-cons, count-nil,
  is_same, u32_mod, pos,
}
use crank4go.SocketQueue.{
  send, store_alive, increment_alive_socket_number, decrement_alive_socket_number, len_alive,
}
use crank4go.SocketQueue.Steps.{
  Machine, start, Step, offers, sends, stores, counts, receives, hits, misses, removes, discounts,
  Reach, here, next,
}

pub record Inv (m : Machine) : Type 0 where
  pub word : m.queue.length < u32_mod
  pub counted :
      ((p : ℕ) → count p m.offered ≤ 1)
      → (m.queue.length + length m.counting) % u32_mod
        ≡ (length m.queue.alive_socket_set + m.uncounting) % u32_mod
  pub fits : length m.queue.ch ≤ m.queue.capacity
  pub alive_once :
      (p : ℕ)
      → count p m.senders
          + count p m.storing
          + count p m.queue.alive_socket_set
          + count p m.handed
          + count p m.removed
        ≤ count p m.offered
  pub sent_once :
      (p : ℕ)
      → count p m.senders + count p m.queue.ch + count p m.received + count p m.handed
        ≤ count p m.offered

start-Inv : (capacity : ℕ) → Inv (start capacity)
start-Inv capacity = record {
  word = omega arith;
  counted = λ once. refl;
  fits = omega arith;
  alive_once = λ p. omega (arith, count-nil);
  sent_once = λ p. omega (arith, count-nil);
}

-- A socket that waits is counted once less when it is taken out.
erased : (x p : ℕ) (ps : List ℕ) → 0 < count p ps → is_same x p ≤ count x ps
erased x p ps h = ground arith

-- Storing a socket adds it at most once.
stored : (x p : ℕ) (ps : List ℕ) → count x (store p ps) ≤ count x ps + is_same x p
unfolding store count
stored x p ps = ground arith

pub Step-Inv : {m n : Machine} → Step m n → Inv m → Inv n
unfolding send store_alive increment_alive_socket_number decrement_alive_socket_number
Step-Inv (offers m p) v = record {
  word = v.word;
  counted = λ once. v.counted (λ q. omega (arith, count-cons q p m.offered, once q));
  fits = v.fits;
  alive_once =
      λ q. ground (arith, count-cons q p m.senders, count-cons q p m.offered, v.alive_once q);
  sent_once =
      λ q. ground (arith, count-cons q p m.senders, count-cons q p m.offered, v.sent_once q);
}
Step-Inv (sends m p q waits room) v = record {
  word = ground (arith, v.word);
  counted = λ once. ground (arith, v.counted once);
  fits = ground (arith, v.fits, length-append m.queue.ch (p ∷ []));
  alive_once = λ x. ground (
    arith,
    count-cons x p m.storing,
    count-erase x p m.senders,
    erased x p m.senders waits,
    v.alive_once x,
  );
  sent_once = λ x. ground (
    arith,
    count-erase x p m.senders,
    erased x p m.senders waits,
    count-append x m.queue.ch (p ∷ []),
    count-cons x p [],
    count-nil x,
    v.sent_once x,
  );
}
Step-Inv (stores m p waits) v = record {
  word = v.word;
  counted = λ once.
      let absent : count p m.queue.alive_socket_set ≡ 0 = omega (arith, v.alive_once p, once p) in
      omega (
        arith,
        length-erase p m.storing waits,
        length-store p m.queue.alive_socket_set absent,
        v.counted once,
      );
  fits = v.fits;
  alive_once = λ x. ground (
    arith,
    stored x p m.queue.alive_socket_set,
    count-erase x p m.storing,
    erased x p m.storing waits,
    v.alive_once x,
  );
  sent_once = v.sent_once;
}
Step-Inv (counts m p waits) v = record {
  word = omega arith;
  counted = λ once. omega (arith, length-erase p m.counting waits, v.counted once);
  fits = v.fits;
  alive_once = v.alive_once;
  sent_once = v.sent_once;
}
Step-Inv (receives m p rest e) v = record {
  word = v.word;
  counted = v.counted;
  fits = omega (arith, v.fits, ap length e);
  alive_once = v.alive_once;
  sent_once = λ x.
      omega (arith, count-cons x p m.received, count-cons x p rest, ap (count x) e, v.sent_once x);
}
Step-Inv (hits m p waits alive) v =
    let present : 0 < count p m.queue.alive_socket_set = ground arith in
    record {
      word = v.word;
      counted =
          λ once. omega (arith, length-erase p m.queue.alive_socket_set present, v.counted once);
      fits = v.fits;
      alive_once = λ x. ground (
        arith,
        count-erase x p m.queue.alive_socket_set,
        erased x p m.queue.alive_socket_set present,
        count-cons x p m.handed,
        v.alive_once x,
      );
      sent_once = λ x. ground (
        arith,
        count-erase x p m.received,
        erased x p m.received waits,
        count-cons x p m.handed,
        v.sent_once x,
      );
    }
Step-Inv (misses m p waits dead) v = record {
  word = v.word;
  counted = v.counted;
  fits = v.fits;
  alive_once = v.alive_once;
  sent_once = λ x. omega (arith, count-erase x p m.received, v.sent_once x);
}
Step-Inv (removes m p alive) v =
    let present : 0 < count p m.queue.alive_socket_set = ground arith in
    record {
      word = v.word;
      counted =
          λ once. omega (arith, length-erase p m.queue.alive_socket_set present, v.counted once);
      fits = v.fits;
      alive_once = λ x. ground (
        arith,
        count-erase x p m.queue.alive_socket_set,
        erased x p m.queue.alive_socket_set present,
        count-cons x p m.removed,
        v.alive_once x,
      );
      sent_once = v.sent_once;
    }
Step-Inv (discounts m waits) v = record {
  word = omega arith;
  counted = λ once. omega (arith, v.counted once);
  fits = v.fits;
  alive_once = v.alive_once;
  sent_once = v.sent_once;
}

pub Reach-Inv : (capacity : ℕ) {m : Machine} → Reach (start capacity) m → Inv m
Reach-Inv capacity here = start-Inv capacity
Reach-Inv capacity (next r st) = Step-Inv st (Reach-Inv capacity r)

Step-capacity : {m n : Machine} → Step m n → n.queue.capacity ≡ m.queue.capacity
unfolding send store_alive increment_alive_socket_number decrement_alive_socket_number
Step-capacity (sends m p q waits room) = ground arith
Step-capacity (offers m p) = refl
Step-capacity _ = refl

Reach-capacity :
    (capacity : ℕ) {m : Machine} → Reach (start capacity) m → m.queue.capacity ≡ capacity
Reach-capacity capacity here = refl
Reach-capacity capacity (next r st) = Step-capacity st ∙ Reach-capacity capacity r

-- After any interleaving from the empty queue, the channel holds no more than its capacity.
pub ch-within_capacity :
    (capacity : ℕ) {m : Machine} → Reach (start capacity) m → length m.queue.ch ≤ capacity
ch-within_capacity capacity r =
    omega (arith, (Reach-Inv capacity r).fits, Reach-capacity capacity r)

-- After any interleaving, a socket has been handed out and removed at most as often, both together, as
-- it was offered: one that was offered once is handed to one request at most, and to none if it
-- was removed.
pub handed_once :
    (capacity : ℕ) {m : Machine} (p : ℕ)
    → Reach (start capacity) m
    → count p m.handed + count p m.removed ≤ count p m.offered
handed_once capacity p r = omega (arith, (Reach-Inv capacity r).alive_once p)

-- If no socket was offered twice, then once every goroutine has counted its socket, `LenAlive` is the
-- size of the alive set, if that is below 2^31.
pub len_alive-length :
    (capacity : ℕ) {m : Machine}
    → Reach (start capacity) m
    → ((p : ℕ) → count p m.offered ≤ 1)
    → m.counting ≡ []
    → m.uncounting ≡ 0
    → length m.queue.alive_socket_set < 2 ^ 31
    → len_alive m.queue ≡ pos (length m.queue.alive_socket_set)
unfolding len_alive
len_alive-length capacity {m} r once e z h =
    let v = Reach-Inv capacity r in
    let same : m.queue.length ≡ length m.queue.alive_socket_set =
      omega (arith, v.word, v.counted once, ap length e) in
    ground arith

-- ===== src/SocketQueue/AtRest.antt =====
-- A queue that no goroutine is working on, and what a poll makes of it.
use crank4go.Base.{
  ℕ, ◌<◌, ◌≤◌, ◌≡◌, refl, ap, inr, ◌⊎◌, false, some, List, [], ◌∷◌, arith, count, count-append,
  count-cons, erase, count-erase, length, length-append, length-erase, u32_mod, dec32,
}
use crank4go.SocketQueue.{IterableChan, poll, is_alive_socket_set_empty}
use crank4go.SocketQueue.Polling.{got, nothing, poll-Polled, Dead}

-- A queue at rest: the counter is the size of the alive set, and each alive socket is in the channel.
pub record AtRest (q : IterableChan) : Type 0 where
  pub counted : q.length ≡ length q.alive_socket_set
  pub word : q.length < u32_mod
  pub once : (p : ℕ) → count p q.alive_socket_set ≤ 1
  pub in_channel : (p : ℕ) → count p q.alive_socket_set ≤ count p q.ch

-- A skipped socket is not alive.
Dead-absent :
    (c : IterableChan) (ps : List ℕ) (x : ℕ)
    → Dead c ps
    → (count x c.alive_socket_set ≡ 0) ⊎ (count x ps ≡ 0)
unfolding count
Dead-absent c [] x d = inr refl
Dead-absent c (p ∷ ps) x (dead, d) = ground (arith, Dead-absent c ps x d)

-- If every socket in the channel is dead, no socket is alive.
Dead-no_alive :
    (q : IterableChan) (alive : List ℕ)
    → ((p : ℕ) → count p alive ≤ count p q.alive_socket_set)
    → ((p : ℕ) → count p q.alive_socket_set ≤ count p q.ch)
    → Dead q q.ch
    → length alive ≡ 0
unfolding count
Dead-no_alive q [] le h d = refl
Dead-no_alive q (p ∷ alive) le h d =
    absurd (ground (arith, le p, h p, Dead-absent q q.ch p d, count-cons p p alive))

-- A poll of a queue at rest with an alive socket returns it, and leaves a queue at rest with one
-- alive socket and at least one socket in the channel less.
pub record Takes (q : IterableChan) : Type 0 where
  pub socket : ℕ
  pub rest : IterableChan
  pub polls : poll q ≡ (rest, some socket)
  pub absent : count socket rest.alive_socket_set ≡ 0
  pub at_rest : AtRest rest
  pub shorter : length rest.ch < length q.ch

pub poll-Takes : (q : IterableChan) → AtRest q → is_alive_socket_set_empty q ≡ false → Takes q
unfolding is_alive_socket_set_empty
poll-Takes q v h = elim (poll-Polled q) [
  | nothing d e ↦ absurd (
      ground
        (arith, v.counted, Dead-no_alive q q.alive_socket_set (λ p. omega arith) v.in_channel d))
  | got skipped rest p e d alive r ↦
      let present : 0 < count p q.alive_socket_set = ground arith in
      record {
        socket = p;
        rest = record q {
          ch = rest;
          alive_socket_set = erase p q.alive_socket_set;
          length = dec32 q.length;
        };
        polls = r;
        absent = ground (arith, count-erase p p q.alive_socket_set, v.once p);
        at_rest = record {
          counted = ground (arith, v.counted, v.word, length-erase p q.alive_socket_set present);
          word = omega arith;
          once = λ x. ground (arith, count-erase x p q.alive_socket_set, v.once x);
          in_channel = λ x. ground (
            arith,
            count-erase x p q.alive_socket_set,
            v.in_channel x,
            Dead-absent q skipped x d,
            count-append x skipped (p ∷ rest),
            count-cons x p rest,
            ap (count x) e,
          );
        };
        shorter = ground (arith, ap length e, length-append skipped (p ∷ rest));
      }
]

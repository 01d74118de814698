-- ===== src/SocketQueue/Polling.antt =====
-- What `Poll` and `PollTimeout` return, and in which order.
use crank4go.Base.{
  ℕ, ◌+◌, ◌≡◌, refl, sym, ◌∙◌, append_assoc, append-nil, inl, inr, Bool, true, false, Option, none,
  some, List, [], ◌∷◌, ◌++◌, arith, All, All-append, Any, ◌⊎◌, some_eq, elem, erase, dec32,
  Bool-cases,
}
use mathlib.Core.Path.{subst}
use crank4go.SocketQueue.{
  IterableChan, poll, poll_list, poll_timeout, poll_timeout_list, wait_arrivals,
  decrement_alive_socket_number,
}

-- The sockets of a list that are not in the alive set.
abbrev pub Dead : IterableChan → List ℕ → Type 0
Dead c = All (λ p. elem p c.alive_socket_set ≡ false)

-- What a poll does: the sockets that it skips are dead; it ends with the first alive socket, which
-- is no longer alive then and counted off, or with an empty channel.
pub data Polled (c : IterableChan) (r : IterableChan × Option ℕ) : Type 0 where
  got :
      (skipped rest : List ℕ) (p : ℕ)
      → c.ch ≡ skipped ++ p ∷ rest
      → Dead c skipped
      → elem p c.alive_socket_set ≡ true
      → r ≡ (
        record c {
          ch = rest;
          alive_socket_set = erase p c.alive_socket_set;
          length = dec32 c.length;
        },
        some p,
      )
      → Polled c r
  nothing : Dead c c.ch → r ≡ (record c { ch = [] }, none) → Polled c r

module _ (c : IterableChan) where
  poll_list-Polled :
      (skipped ps : List ℕ) → c.ch ≡ skipped ++ ps → Dead c skipped → Polled c (poll_list ps c)
  unfolding poll_list decrement_alive_socket_number
  poll_list-Polled skipped [] e d = nothing (subst (Dead c) (sym (e ∙ append-nil skipped)) d) refl
  poll_list-Polled skipped (p ∷ ps) e d = elim (Bool-cases (elem p c.alive_socket_set)) [
    | inl alive ↦ got skipped ps p e d alive (rw alive)
    | inr dead ↦ rw dead (
        poll_list-Polled (skipped ++ p ∷ []) ps (rw append_assoc e)
          (All-append _ skipped _ d (dead, tt)))
  ]

-- `Poll` takes sockets from the front, skips dead ones only, and hands out the first alive one,
-- which it deletes from the alive set and counts off; it returns nil only if all sockets in the
-- channel are dead, and then leaves the channel empty.
pub poll-Polled : (c : IterableChan) → Polled c (poll c)
unfolding poll
poll-Polled c = poll_list-Polled c [] c.ch refl tt

module _ (late : ℕ → Bool) (c : IterableChan) where
  punctual_list :
      (round : ℕ) (ps : List ℕ)
      → ((i : ℕ) → late i ≡ false)
      → poll_timeout_list late round [] ps c ≡ poll_list ps c
  unfolding poll_timeout_list poll_list wait_arrivals
  punctual_list round [] h = refl
  punctual_list round (p ∷ ps) h = ground (arith, h round, punctual_list (round + 1) ps h)

  -- With nobody sending and every elapsed-time test passed, `PollTimeout` does what `Poll` does.
  pub poll_timeout-eq-poll : ((i : ℕ) → late i ≡ false) → poll_timeout late [] c ≡ poll c
  unfolding poll_timeout poll
  poll_timeout-eq-poll h = punctual_list 0 c.ch h

abbrev pub Arrives : ℕ → List (ℕ × Bool) → Type 0
Arrives p = Any (λ a. a ≡ (p, true))

waited :
    (late : ℕ → Bool) (round : ℕ) (arrivals : List (ℕ × Bool)) {p : ℕ}
    → wait_arrivals late round arrivals ≡ some p
    → Arrives p arrivals
unfolding wait_arrivals
waited late round [] h = cc
waited late round ((q, true) ∷ arrivals) h = inl (ground arith)
waited late round ((q, false) ∷ arrivals) h = inr (waited late (round + 1) arrivals (ground arith))

timed_list :
    (late : ℕ → Bool) (round : ℕ) (arrivals : List (ℕ × Bool)) (ps : List ℕ) (c : IterableChan)
    {p : ℕ}
    → (poll_timeout_list late round arrivals ps c).1 ≡ some p
    → (elem p c.alive_socket_set ≡ true) ⊎ Arrives p arrivals
unfolding poll_timeout_list
timed_list late round arrivals [] c h = inr (waited late round arrivals h)
timed_list late round arrivals (q ∷ ps) c {p} h = elim (Bool-cases (elem q c.alive_socket_set)) [
  | inl alive ↦ inl (rw (← some_eq {a = q} (rw alive at h)) alive)
  | inr dead ↦ elim (Bool-cases (late round)) [
    | inl over ↦ cc (rw (dead, over) at h)
    | inr goes_on ↦ timed_list late (round + 1) arrivals ps c (rw (dead, goes_on) at h)
  ]
]

-- A socket that `PollTimeout` returns was alive in the queue, or arrived alive during the wait.
pub poll_timeout-alive :
    (late : ℕ → Bool) (arrivals : List (ℕ × Bool)) (c : IterableChan) {p : ℕ}
    → (poll_timeout late arrivals c).1 ≡ some p
    → (elem p c.alive_socket_set ≡ true) ⊎ Arrives p arrivals
unfolding poll_timeout
poll_timeout-alive late arrivals c h = timed_list late 0 arrivals c.ch c h

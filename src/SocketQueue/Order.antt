-- ===== src/SocketQueue/Order.antt =====
-- `IterableChan` as its clients see it, when calls and goroutines run in one piece, in any order: a
-- list of the sockets that are alive.
use crank4go.Base.{
  ℕ, ◌+◌, ◌≤◌, ◌≡◌, refl, ap, ◌∙◌, inl, inr, Bool, true, Option, none, some, ◌>>=◌, List, [], ◌∷◌,
  ◌++◌, arith, length, length-append, length-erase, ◌<◌, if◌then◌else◌, count, count-append,
  count-erase, count-store, elem, erase, erase_absent, store, Bool-cases, if◌then◌else◌,
}
use mathlib.Core.Path.{subst}
use crank4go.SocketQueue.{
  IterableChan, make_chan, push, send, store_alive, increment_alive_socket_number, poll, poll_list,
  remove, decrement_alive_socket_number,
}

-- `Offer` returns at once; `runs p` is the goroutine of an offer of `p`, which runs at any later time.
pub data Call : Type 0 where
  offers runs removes : ℕ → Call
  polls : Call

pub data Reply : Type 0 where
  accepted : Reply
  handed : Option ℕ → Reply
  was_there : Bool → Reply

reply : Reply → Option (List Reply) → Option (List Reply)
reply r none = none
reply r (some rs) = some (r ∷ rs)

-- The replies of the queue while the goroutines of `ws` have not run; there are none if a goroutine
-- waits for room.
unfoldable pub replies : List Call → List ℕ → IterableChan → Option (List Reply)
unfolding reply push remove
replies [] ws c = some []
replies (offers p ∷ calls) ws c = reply accepted (replies calls (p ∷ ws) c)
replies (runs p ∷ calls) ws c =
    if elem p ws then (push p c >>= λ c'. replies calls (erase p ws) c') else replies calls ws c
replies (polls ∷ calls) ws c = reply (handed (poll c).1) (replies calls ws (poll c).0)
replies (removes p ∷ calls) ws c =
    reply (was_there (remove c (some p)).1) (replies calls ws (remove c (some p)).0)

-- The replies of a list: a goroutine adds its socket at the end, and a poll takes one from the front.
unfoldable pub list_replies : List Call → List ℕ → List ℕ → List Reply
list_replies [] ws ps = []
list_replies (offers p ∷ calls) ws ps = accepted ∷ list_replies calls (p ∷ ws) ps
list_replies (runs p ∷ calls) ws ps =
    if elem p ws then list_replies calls (erase p ws) (ps ++ p ∷ []) else list_replies calls ws ps
list_replies (polls ∷ calls) ws [] = handed none ∷ list_replies calls ws []
list_replies (polls ∷ calls) ws (p ∷ ps) = handed (some p) ∷ list_replies calls ws ps
list_replies (removes p ∷ calls) ws ps = was_there (elem p ps) ∷ list_replies calls ws (erase p ps)

abbrev pub offered : List Call → List ℕ
offered [] = []
offered (offers p ∷ calls) = p ∷ offered calls
offered (runs p ∷ calls) = offered calls
offered (polls ∷ calls) = offered calls
offered (removes p ∷ calls) = offered calls

-- The sockets of a channel that are alive, in its order.
unfoldable pub alive_in : List ℕ → List ℕ → List ℕ
alive_in [] s = []
alive_in (p ∷ ps) s = if elem p s then p ∷ alive_in ps s else alive_in ps s

alive_in-append : (ps qs s : List ℕ) → alive_in (ps ++ qs) s ≡ alive_in ps s ++ alive_in qs s
unfolding alive_in
alive_in-append [] qs s = refl
alive_in-append (p ∷ ps) qs s = ground (arith, alive_in-append ps qs s)

count-alive_in :
    (q : ℕ) (ps s : List ℕ) → count q (alive_in ps s) ≡ (if elem q s then count q ps else 0)
unfolding alive_in count
count-alive_in q [] s = ground arith
count-alive_in q (p ∷ ps) s = ground (arith, count-alive_in q ps s)

alive_in-store :
    (p : ℕ) (ps s : List ℕ)
    → count p ps ≡ 0
    → count p s ≡ 0
    → alive_in ps (store p s) ≡ alive_in ps s
unfolding alive_in count
alive_in-store p [] s h k = refl
alive_in-store p (q ∷ ps) s h k = ground (arith, alive_in-store p ps s, count-store q p s k)

-- A socket that is not in the channel can be taken out of the alive set.
alive_in-erase_absent :
    (p : ℕ) (ps s : List ℕ) → count p ps ≡ 0 → alive_in ps (erase p s) ≡ alive_in ps s
unfolding alive_in count
alive_in-erase_absent p [] s h = refl
alive_in-erase_absent p (q ∷ ps) s h =
    ground (arith, alive_in-erase_absent p ps s, count-erase q p s)

alive_in-erase :
    (p : ℕ) (ps s : List ℕ)
    → count p ps ≤ 1
    → count p s ≤ 1
    → alive_in ps (erase p s) ≡ erase p (alive_in ps s)
unfolding alive_in count erase
alive_in-erase p [] s h k = refl
alive_in-erase p (q ∷ ps) s h k = ground (
  arith,
  alive_in-erase p ps s,
  alive_in-erase_absent p ps s,
  count-erase q p s,
  count-alive_in p ps s,
  erase_absent p (alive_in ps s),
)

-- A socket is offered once, there is room for all, and the alive ones stand in the channel.
record Fits (c : IterableChan) (ws : List ℕ) (calls : List Call) : Type 0 where
  once : (q : ℕ) → count q c.ch + count q ws + count q (offered calls) ≤ 1
  inside : (q : ℕ) → count q c.alive_socket_set ≤ count q c.ch
  room : length c.ch + length ws + length (offered calls) ≤ c.capacity

abbrev view : IterableChan → List ℕ
view c = alive_in c.ch c.alive_socket_set

-- What a poll returns and leaves, on the sockets of its channel.
abbrev IsTaken : List ℕ → IterableChan → IterableChan × Option ℕ → Type 0
IsTaken [] c r = (r.1 ≡ none) × (view r.0 ≡ [])
IsTaken (p ∷ ps) c r = (r.1 ≡ some p) × (view r.0 ≡ ps)

poll_list-IsTaken :
    (ps : List ℕ) (c : IterableChan)
    → ((q : ℕ) → count q ps ≤ 1)
    → IsTaken (alive_in ps c.alive_socket_set) c (poll_list ps c)
unfolding poll_list alive_in decrement_alive_socket_number count
poll_list-IsTaken [] c once = (refl, refl)
poll_list-IsTaken (p ∷ ps) c once = elim (Bool-cases (elem p c.alive_socket_set)) [
  | inl e ↦ rw e (refl, alive_in-erase_absent p ps c.alive_socket_set (grind (arith, once p)))
  | inr e ↦ rw e (poll_list-IsTaken ps c (λ q. omega (arith, once q)))
]

-- Each socket of the rest stands in the channel as often as before, or once less.
poll_list_fewer :
    (ps : List ℕ) (c : IterableChan) (q : ℕ)
    → ((q : ℕ) → count q ps ≤ 1)
    → ((q : ℕ) → count q c.alive_socket_set ≤ count q ps)
    → (count q (poll_list ps c).0.ch ≤ count q ps)
      × (count q (poll_list ps c).0.alive_socket_set ≤ count q (poll_list ps c).0.ch)
      × (length (poll_list ps c).0.ch ≤ length ps)
      × ((poll_list ps c).0.capacity ≡ c.capacity)
unfolding poll_list decrement_alive_socket_number count
poll_list_fewer [] c q once inside = (omega arith, inside q, omega arith, refl)
poll_list_fewer (p ∷ ps) c q once inside = elim (Bool-cases (elem p c.alive_socket_set)) [
  | inl e ↦
      rw (e, decrement_alive_socket_number)
        (
          omega arith,
          ground (arith, count-erase q p c.alive_socket_set, inside q, inside p),
          omega arith,
          refl,
        )
  | inr e ↦
      let inside' : (q : ℕ) → count q c.alive_socket_set ≤ count q ps =
        λ r. ground (arith, inside r, e) in
      let (a, b, l, k) = poll_list_fewer ps c q (λ r. omega (arith, once r)) inside' in
      rw e (omega (arith, a), b, omega (arith, l), k)
]

module _ (calls : List Call) (ws : List ℕ) (c : IterableChan) where
  offer-Fits : (p : ℕ) → Fits c ws (offers p ∷ calls) → Fits c (p ∷ ws) calls
  unfolding count
  offer-Fits p fits = record {
    once = λ q. omega (arith, fits.once q);
    inside = fits.inside;
    room = omega (arith, fits.room);
  }

  abbrev after_push : ℕ → IterableChan
  after_push p = increment_alive_socket_number (store_alive p (record c { ch = c.ch ++ p ∷ [] }))

  module _ (p : ℕ) (waits : 0 < count p ws) (fits : Fits c ws (runs p ∷ calls)) where
    new : count p c.ch ≡ 0
    new = omega (arith, waits, fits.once p)

    absent : count p c.alive_socket_set ≡ 0
    absent = omega (arith, new, fits.inside p)

    push-room : push p c ≡ some (after_push p)
    unfolding push send
    push-room = ground (arith, length-erase p ws waits, fits.room)

    push-Fits : Fits (after_push p) (erase p ws) calls
    unfolding count increment_alive_socket_number store_alive
    push-Fits = record {
      once =
          λ q. ground (arith, waits, fits.once q, count-append q c.ch (p ∷ []), count-erase q p ws);
      inside = λ q. omega (
        arith,
        fits.inside q,
        count-append q c.ch (p ∷ []),
        count-store q p c.alive_socket_set absent,
      );
      room = omega (arith, fits.room, length-append c.ch (p ∷ []), length-erase p ws waits);
    }

    push-view : view (after_push p) ≡ view c ++ p ∷ []
    unfolding count increment_alive_socket_number store_alive alive_in
    push-view =
        let s = c.alive_socket_set in
        let there : elem p (store p s) ≡ true = ground (arith, count-store p p s absent) in
        alive_in-append c.ch (p ∷ []) (store p s) ∙ rw (there, alive_in-store p c.ch s new absent)

  poll-Fits : Fits c ws (polls ∷ calls) → Fits (poll c).0 ws calls
  unfolding poll
  poll-Fits fits =
      let once : (q : ℕ) → count q c.ch ≤ 1 = λ q. omega (arith, fits.once q) in
      let fewer = λ (q : ℕ). poll_list_fewer c.ch c q once fits.inside in
      record {
        once = λ q. omega (arith, fits.once q, (fewer q).0);
        inside = λ q. (fewer q).1;
        room = omega (arith, fits.room, (fewer 0).2, (fewer 0).3);
      }

  polled : (ps : List ℕ) → Fits c ws (polls ∷ calls) → view c ≡ ps → IsTaken ps c (poll c)
  unfolding poll
  polled ps fits seen =
      subst (λ xs. IsTaken xs c (poll c)) seen
        (poll_list-IsTaken c.ch c (λ q. omega (arith, fits.once q)))

  abbrev after_remove : ℕ → IterableChan
  after_remove p = (remove c (some p)).0

  remove-Fits : (p : ℕ) → Fits c ws (removes p ∷ calls) → Fits (after_remove p) ws calls
  unfolding remove decrement_alive_socket_number
  remove-Fits p fits = record {
    once = λ q. ground (arith, fits.once q);
    inside = λ q. ground (arith, fits.inside q, count-erase q p c.alive_socket_set);
    room = ground (arith, fits.room);
  }

  remove-view :
      (p : ℕ)
      → Fits c ws (removes p ∷ calls)
      → (view (after_remove p) ≡ erase p (view c)) × ((remove c (some p)).1 ≡ elem p (view c))
  unfolding remove decrement_alive_socket_number
  remove-view p fits =
      let s = c.alive_socket_set in
      let counts = count-alive_in p c.ch s in
      let inside = fits.inside p in
      let once = fits.once p in
      let gone = alive_in-erase p c.ch s (omega arith) (omega arith) in
      let absent = erase_absent p (view c) in
      (ground (arith, gone, absent, counts), ground (arith, counts))

follows :
    (calls : List Call) (ws : List ℕ) (c : IterableChan) (ps : List ℕ)
    → Fits c ws calls
    → view c ≡ ps
    → replies calls ws c ≡ some (list_replies calls ws ps)
unfolding replies list_replies
follows [] ws c ps fits seen = refl
follows (offers p ∷ calls) ws c ps fits seen =
    ap (reply accepted) (follows calls (p ∷ ws) c ps (offer-Fits calls ws c p fits) seen)
follows (runs p ∷ calls) ws c ps fits seen = elim (Bool-cases (elem p ws)) [
  | inl e ↦
      let waits : 0 < count p ws = ground arith in
      let c₁ = after_push calls ws c p in
      rw e (
        ap (λ o. o >>= λ c'. replies calls (erase p ws) c') (push-room calls ws c p waits fits)
        ∙ follows calls (erase p ws) c₁ (ps ++ p ∷ []) (push-Fits calls ws c p waits fits)
            (push-view calls ws c p waits fits ∙ ap (λ xs. xs ++ p ∷ []) seen))
  | inr e ↦
      let rest : Fits c ws calls = record {
        once = fits.once;
        inside = fits.inside;
        room = fits.room;
      } in
      rw e (follows calls ws c ps rest seen)
]
follows (polls ∷ calls) ws c [] fits seen =
    let (got, left) = polled calls ws c [] fits seen in
    ap (λ o. reply (handed o) (replies calls ws (poll c).0)) got
    ∙ ap (reply (handed none)) (follows calls ws (poll c).0 [] (poll-Fits calls ws c fits) left)
follows (polls ∷ calls) ws c (p ∷ ps) fits seen =
    let (got, left) = polled calls ws c (p ∷ ps) fits seen in
    ap (λ o. reply (handed o) (replies calls ws (poll c).0)) got
    ∙ ap (reply (handed (some p))) (follows calls ws (poll c).0 ps (poll-Fits calls ws c fits) left)
follows (removes p ∷ calls) ws c ps fits seen =
    let c₁ = after_remove calls ws c p in
    let (left, found) = remove-view calls ws c p fits in
    ap (λ b. reply (was_there b) (replies calls ws c₁)) (found ∙ ap (elem p) seen)
    ∙ ap (reply (was_there (elem p ps))) (
        follows calls ws c₁ (erase p ps) (remove-Fits calls ws c p fits) (left ∙ ap (erase p) seen))

-- What a queue promises its clients: whatever calls are made on a new queue, and whenever the
-- goroutines of its offers run, if calls and goroutines run in one piece, each socket is offered at
-- most once and no more sockets are offered than the channel holds, then no goroutine waits, and
-- the replies are those of a list to whose end each goroutine adds its socket, from whose front
-- sockets are taken, and out of which they are removed.
pub replies-list_replies :
    (calls : List Call) (n : ℕ)
    → ((q : ℕ) → count q (offered calls) ≤ 1)
    → length (offered calls) ≤ n
    → replies calls [] (make_chan n) ≡ some (list_replies calls [] [])
unfolding count alive_in
replies-list_replies calls n once room =
    follows calls [] (make_chan n) []
      (record {
        once = λ q. omega (arith, once q);
        inside = λ q. omega arith;
        room = omega (arith, room);
      })
      refl

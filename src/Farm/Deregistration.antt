-- ===== src/Farm/Deregistration.antt =====
-- How `DeregisterSocket` ends.
use crank4go.Base.{
  ℕ, suc, ◌≡◌, ap, inl, inr, false, some, Text, split-Lacks, Lacks, Bool-cases, if◌then◌else◌,
}
use crank4go.SocketQueue.{IterableChan, poll, is_alive_socket_set_empty}
use crank4go.SocketQueue.AtRest.{AtRest, poll-Takes}
use crank4go.DarkLaunch.{DarkLaunchManager}
use crank4go.Farm.{Net, load, save}
use crank4go.Farm.Operations.{
  slash, remove_with, remove_websockets, deregister_loop, deregister_socket, deregister_queue,
  finished, panicked,
}

module _ (m : DarkLaunchManager Net) (fuel : ℕ) (target id : Text) (q : IterableChan) (n : Net)
    (held : load (deregister_queue target n) n.farm ≡ some q) where
  polled-panicked :
      (p : ℕ)
      → is_alive_socket_set_empty q ≡ false
      → (poll q).1 ≡ some p
      → Lacks slash (n.heap p).remote_addr
      → deregister_socket m (suc fuel) target id n
        ≡ panicked (record n { farm = save (deregister_queue target n) (poll q).0 n.farm })
  unfolding deregister_socket deregister_loop remove_websockets remove_with
  polled-panicked p e polls lacks = rw (
    deregister_loop,
    held,
    e,
    polls,
    remove_websockets,
    split-Lacks slash (n.heap p).remote_addr lacks,
  )

  -- If the addresses of the sockets hold no slash, as `host:port` does, and the counter and the channel
  -- of the target's queue are up to date, then `DeregisterSocket` ends in its first round, whatever
  -- connector it is called for: it does nothing if the queue has no alive socket, and otherwise polls
  -- one, whosever it is, and panics.
  pub deregister_socket-panicked :
      ((p : ℕ) → Lacks slash (n.heap p).remote_addr)
      → AtRest q
      → deregister_socket m (suc fuel) target id n ≡ (
          if is_alive_socket_set_empty q
          then finished n
          else panicked (record n { farm = save (deregister_queue target n) (poll q).0 n.farm }))
  unfolding deregister_socket deregister_loop
  deregister_socket-panicked lacks v = elim (Bool-cases (is_alive_socket_set_empty q)) [
    | inl e ↦ rw (deregister_loop, held, e)
    | inr e ↦
        let t = poll-Takes q v e in
        rw e (polled-panicked t.socket e (ap (λ r. r.1) t.polls) (lacks t.socket))
  ]

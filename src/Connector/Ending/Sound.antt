-- ===== src/Connector/Ending/Sound.antt =====
-- What a close, an error and a timer make of a socket keeps it sound.
use crank4go.Base.{
  ℕ, ◌≡◌, refl, sym, ap, ◌∙◌, Bool, true, false, not, ◌&&◌, Option, none, some, arith, inl, inr,
  Bool-cases, if◌then◌else◌, ◌==◌,
}
use crank4go.Connector.Target.{IntermediateRequest}
use crank4go.Connector.Client.{ConnectorSocket, dialing, ended}
use crank4go.Connector.Socket.{close_internal_server_err, mark_added, session_opened}
use crank4go.Connector.Ending.{
  end_session, give_up, abort_request, end_ping, set_timer, at_end, retried,
}
use crank4go.Connector.Window.Full.{has, is_live, IsSound}
use crank4go.Connector.Window.Keeps.{Same}

pub IsSound-session_opened :
    (s : ConnectorSocket) → IsSound s → s.phase ≡ dialing → IsSound (session_opened s)
unfolding session_opened
IsSound-session_opened s h phase = record {
  path = h.path;
  retrying = h.retrying;
  armed = h.armed;
  waiting = λ e k. h.waiting (ap is_live phase) k;
  lively = λ e. h.lively (ap is_live phase);
}

-- A socket whose goroutine is at its end.
IsSound-at_end : (s : ConnectorSocket) → IsSound s → IsSound (at_end s)
unfolding at_end
IsSound-at_end s h = record {
  path = h.path;
  retrying = h.retrying;
  armed = h.armed;
  waiting = λ e k. cc;
  lively = λ e. cc;
}

pub IsSound-retried : (s : ConnectorSocket) → IsSound s → s.had_error ≡ true → IsSound (retried s)
unfolding retried
IsSound-retried s h err = record {
  path = h.path;
  retrying = λ e k. cc;
  armed = λ e. cc;
  waiting = λ e k. cc (h.lively e);
  lively = h.lively;
}

pub IsSound-added :
    (s : ConnectorSocket)
    → IsSound s
    → s.phase ≡ ended
    → s.had_error ≡ false
    → IsSound (mark_added s)
unfolding mark_added
IsSound-added s h phase fine = record {
  path = h.path;
  retrying = λ e k. cc;
  armed = λ e. cc ((h.armed e).0, fine);
  waiting = λ e k. cc;
  lively = λ e. fine;
}

pub IsSound-end_session : (s : ConnectorSocket) → IsSound s → IsSound (end_session s)
unfolding end_session
IsSound-end_session s h = record {
  path = h.path;
  retrying = h.retrying;
  armed = h.armed;
  waiting = λ e k. cc;
  lively = λ e. cc;
}

has-abort : (o : Option IntermediateRequest) → has (abort_request o) ≡ has o
unfolding abort_request
has-abort none = refl
has-abort (some r) = refl

IsSound-if :
    (test : Bool) (s s' : ConnectorSocket)
    → IsSound s
    → IsSound s'
    → IsSound (if test then s else s')
IsSound-if true s s' h k = h
IsSound-if false s s' h k = k

pub IsSound-give_up : (code : ℕ) (s : ConnectorSocket) → IsSound s → IsSound (give_up code s)
unfolding give_up
IsSound-give_up code s h =
    IsSound-if (not s.request_complete && not (code == close_internal_server_err)) _ s
      (record {
        path = h.path;
        retrying = h.retrying;
        armed = h.armed;
        waiting = λ e k. h.waiting e (sym (has-abort s.request_to_target) ∙ k);
        lively = h.lively;
      })
      h

pub give_up-Same : (code : ℕ) (s : ConnectorSocket) → Same s (give_up code s)
unfolding give_up
give_up-Same code s = ground arith

not_armed : (s : ConnectorSocket) → IsSound s → is_live s.phase ≡ true → has s.retry ≡ false
not_armed s h live = elim (Bool-cases (has s.retry)) [
  | inl e ↦ cc (h.lively live, (h.armed e).0)
  | inr e ↦ e
]

pub IsSound-end_ping :
    (s : ConnectorSocket)
    → IsSound s
    → is_live s.phase ≡ true
    → s.new_socket_added ≡ true
    → IsSound (end_ping s)
unfolding end_ping
IsSound-end_ping s h live added = record {
  path = h.path;
  retrying = λ e k. cc;
  armed = λ e. cc (not_armed s h live);
  waiting = λ e k. cc;
  lively = λ e. cc;
}

pub IsSound-set_timer :
    (s : ConnectorSocket) (parent_done : Bool) (delay : ℕ)
    → IsSound s
    → parent_done ≡ false
    → s.new_socket_added ≡ false
    → IsSound (set_timer parent_done delay (end_ping s))
unfolding end_ping set_timer
IsSound-set_timer s parent_done delay h going before = record {
  path = h.path;
  retrying = λ e k. rw going;
  armed = λ e. (refl, before);
  waiting = λ e k. cc;
  lively = λ e. cc;
}

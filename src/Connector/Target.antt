-- ===== src/Connector/Target.antt =====
-- connector/intermediate_request.go: `IntermediateRequest`, the request to the target service, and
-- how its response is relayed to the router. What the target does is an argument.
use crank4go.Base.{
  ℕ, ◌+◌, Bool, true, false, Option, none, some, List, [], ◌∷◌, ◌++◌, Text, codes, ℤ,
}
use crank4go.Http.{Header}
use crank4go.Protocol.Response.{ResponseBuilder, new_response_builder}
use crank4go.Connector.Plugins.{StatCarriers, new_connector_plugin_stat_carriers}

pub data Failure : Type 0 where
  cancel_err other_err : Text → Failure

-- `is_succeeded` and `failure` are those of its result; the builder and the carriers are captured by
-- the handler of the response. `headers` are the calls of `Headers.Add`.
pub record IntermediateRequest : Type 0 where
  pub method : Text
  pub headers : List (Text × Text)
  pub url : Text
  pub has_content : Bool
  pub is_succeeded : Bool
  pub failure : Option Failure
  pub ptc_resp : ResponseBuilder
  pub carriers : StatCarriers

unfoldable pub new_intermediate_request : Text → IntermediateRequest
new_intermediate_request url = record {
  method = [];
  headers = [];
  url = url;
  has_content = false;
  is_succeeded = false;
  failure = none;
  ptc_resp = new_response_builder;
  carriers = new_connector_plugin_stat_carriers;
}

abbrev pub add : Text → Text → IntermediateRequest → IntermediateRequest
add name value r = record r { headers = r.headers ++ (name, value) ∷ [] }

unfoldable pub agent : Text → IntermediateRequest → IntermediateRequest
agent name r = add (codes "User-Agent") name r

unfoldable pub with_method : Text → IntermediateRequest → IntermediateRequest
with_method method r = record r { method = method }

unfoldable pub abort : Failure → IntermediateRequest → IntermediateRequest
abort err r = record r { failure = some err }

unfoldable pub content : IntermediateRequest → IntermediateRequest
content r = record r { has_content = true }

pub record TargetResponse : Type 0 where
  pub status_code : ℤ
  pub status : Text
  pub header : Header

-- The reads of the response's body, and how they end: with io.EOF, or with an error. A read that
-- returns bytes with its error is a read in front of that end, since the write of the bytes
-- overwrites the error and the next read returns it again.
pub record Body : Type 0 where
  pub reads : List Text
  pub ends_with : Option Text

-- `http.NewRequest` fails, `Do` fails, or there is a response.
pub data Answer : Type 0 where
  not_composed not_sent : Text → Answer
  answered : TargetResponse → Body → Answer

-- What is written to the websocket, with the code of a close frame.
pub data SentFrame : Type 0 where
  text_message data_message : Text → SentFrame
  close_message : ℕ → SentFrame

abbrev pub Fired : Type 0
Fired = List SentFrame × IntermediateRequest

abbrev also_sent : List SentFrame → Fired → Fired
also_sent frames t = (frames ++ t.0, t.1)

fail_with : Text → IntermediateRequest → Fired
fail_with err r = ([], record r { failure = some (other_err err) })

body_end : Option Text → IntermediateRequest → Fired
unfolding fail_with
body_end none r = ([], record r { is_succeeded = true })
body_end (some err) r =
    fail_with (codes "failed to read response body from service response, err detail: " ++ err) r

-- The loop over the body; `fails i` is whether the write number `i` to the websocket fails.
unfoldable pub relay : (ℕ → Option Text) → ℕ → List Text → Option Text → IntermediateRequest → Fired
unfolding fail_with body_end
relay fails i [] end r = body_end end r
relay fails i ([] ∷ bufs) end r = relay fails i bufs end r
relay fails i ((c ∷ buf) ∷ bufs) end r = elim (fails i) [
  | some err ↦ fail_with err r
  | none ↦ also_sent (data_message (c ∷ buf) ∷ []) (relay fails (i + 1) bufs end r)
]

-- The body behind the handler of the response's beginning; where that panics, it is recovered from.
unfoldable pub relay_behind : (ℕ → Option Text) → Body → IntermediateRequest → Option Fired → Fired
unfolding relay
relay_behind fails body r none = ([], r)
relay_behind fails body r (some begun) =
    also_sent begun.0 (relay fails 1 body.reads body.ends_with begun.1)

-- A request that was aborted in the meantime is given up.
unfoldable pub unless_aborted :
    (ℕ → Option Text) → Body → IntermediateRequest → Option Failure → Option Fired → Fired
unfolding relay_behind
unless_aborted fails body r (some err) begun = ([], r)
unless_aborted fails body r none begun = relay_behind fails body r begun

-- FireRequestFromConnectorToTargetService, up to the callback, with the handler `begin` of the
-- response's beginning: `none` is a panic.
unfoldable pub fire_request :
    (TargetResponse → IntermediateRequest → Option Fired)
    → (ℕ → Option Text)
    → Answer
    → IntermediateRequest
    → Fired
unfolding unless_aborted fail_with
fire_request begin fails (not_composed err) r = fail_with err r
fire_request begin fails (not_sent err) r =
    fail_with (codes "failed to send request, err detail: " ++ err) r
fire_request begin fails (answered resp body) r =
    unless_aborted fails body r r.failure (begin resp r)

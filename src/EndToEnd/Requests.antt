-- ===== src/EndToEnd/Requests.antt =====
-- The headers of a client's request at the target.
use crank4go.Base.{
  ◌≢◌, Bool, true, false, List, [], ◌∷◌, ◌++◌, Text, codes, text_eq, All, Lacks, if◌then◌else◌,
}
use crank4go.Protocol.Headers.{colon, request_has_no_body_marker, request_body_pending_marker}
use crank4go.Protocol.Request.{Request, build, with_req_body_pending, with_req_has_no_body}
use crank4go.Http.{HttpRequest, Header, header_get, header_values}
use crank4go.ReverseProxy.{should_send_header_from_client_to_target}
use crank4go.ReverseProxy.Handling.{request_builder}

abbrev pub value_pairs : Text → List Text → List (Text × Text)
value_pairs name [] = []
value_pairs name (v ∷ vs) = (name, v) ∷ value_pairs name vs

-- The headers of the client that are sent on, value by value.
unfoldable pub kept_pairs : List Text → Header → List (Text × Text)
kept_pairs conn [] = []
kept_pairs conn ((name, values) ∷ h) =
    if should_send_header_from_client_to_target name conn
    then value_pairs name values ++ kept_pairs conn h
    else kept_pairs conn h

abbrev pub pair_unless : Text → Text → Text → List (Text × Text)
pair_unless there name value = if text_eq there [] then (name, value) ∷ [] else []

abbrev pub forwarded : Text → HttpRequest → Text × Text
forwarded by r = (
  codes "Forwarded",
  codes "for="
      ++ (r.remote_addr
          ++ (codes ";proto="
              ++ (r.scheme ++ (codes ";host=" ++ (r.host ++ (codes ";by=" ++ by)))))),
)

-- A header that is set unless the client has sent it.
abbrev pub set_unless : Text → Text → HttpRequest → List (Text × Text)
set_unless name value r = pair_unless (header_get name r.header) name value

abbrev pub forwarding_pairs : Text → HttpRequest → List (Text × Text)
forwarding_pairs by r =
    forwarded by r ∷ []
    ++ set_unless (codes "X-Forwarded-For") r.remote_addr r
    ++ set_unless (codes "X-Forwarded-Proto") r.scheme r
    ++ set_unless (codes "X-Forwarded-Host") r.host r
    ++ set_unless (codes "X-Forwarded-Server") by r

-- What the target gets of the client's headers, with the forwarding headers behind them.
abbrev pub sent_pairs : Text → HttpRequest → List (Text × Text)
sent_pairs by r =
    kept_pairs (header_values (codes "Connection") r.header) r.header ++ forwarding_pairs by r

-- The header names of a request as net/http leaves them: no empty one, and none with a colon.
abbrev pub NamesFine : Header → Type 0
NamesFine h = All (λ (e : Text × List Text). (e.0 ≢ []) × Lacks colon e.0) h

-- The first message that the router sends for a request.
abbrev pub first_message : Bool → Text → HttpRequest → Text
first_message true by r = build (with_req_body_pending (request_builder by r))
first_message false by r = build (with_req_has_no_body (request_builder by r))

abbrev marker_of : Bool → Text
marker_of true = request_body_pending_marker
marker_of false = request_has_no_body_marker

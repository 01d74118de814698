-- ===== src/EndToEnd/Responses.antt =====
-- The response of the target at the client.
use crank4go.Base.{
  ℕ, ◌<◌, ◌^◌, ◌≡◌, refl, ap, ◌∙◌, true, false, none, some, List, [], ◌∷◌, ◌++◌, map, Text, codes,
  Lacks, pos, ℤ,
}
use crank4go.Protocol.Headers.{nl, space}
use crank4go.Protocol.Response.{new_response_builder, with_source_url, with_http_method}
use crank4go.Http.{Header, ResponseWriter, add_header, write_header, write}
use crank4go.DarkLaunch.{DarkLaunchManager}
use crank4go.Farm.{Net}
use crank4go.SocketEvents.{
  takes_status, World, the, Frame, text_frame, binary_frame, closed, run_forever,
}
use crank4go.SocketEvents.Writing.{run_forever-writes}
use crank4go.Connector.Target.{
  IntermediateRequest, answered, SentFrame, text_message, data_message, close_message,
}
use crank4go.Connector.Client.{Client}
use crank4go.Connector.Socket.{socket}
use crank4go.Connector.Events.{target_answers}
use crank4go.Connector.Events.Relaying.{no_failures, data_frames, target_answers-relayed}

-- The frames that the router reads; a close frame ends its loop.
abbrev pub delivered : List SentFrame → List Frame
delivered [] = []
delivered (text_message msg ∷ frames) = text_frame msg ∷ delivered frames
delivered (data_message buf ∷ frames) = binary_frame false buf ∷ delivered frames
delivered (close_message code ∷ frames) = delivered frames

abbrev pub non_empty : List Text → List Text
non_empty [] = []
non_empty ([] ∷ bufs) = non_empty bufs
non_empty ((b ∷ buf) ∷ bufs) = (b ∷ buf) ∷ non_empty bufs

delivered-data :
    (bufs : List Text)
    → delivered (data_frames bufs ++ close_message 1000 ∷ [])
      ≡ map (binary_frame false) (non_empty bufs)
delivered-data [] = refl
delivered-data ([] ∷ bufs) = delivered-data bufs
delivered-data ((b ∷ buf) ∷ bufs) = ap (◌∷◌ (binary_frame false (b ∷ buf))) (delivered-data bufs)

module _ (status : ℕ) (reason method url : Text) (fits : status < 2 ^ 63)
    (reason_line : Lacks nl reason) (method_word : Lacks space method)
    (method_line : Lacks nl method) (url_word : Lacks space url) (url_line : Lacks nl url) where
  -- When the target answers a request in flight and nothing fails and there are no plugins, with a
  -- status that the client's writer takes (one of three digits, or its header is written): what the
  -- connector writes, read by the router up to the close with code 1000, makes these calls on the
  -- client's writer, and no other: the `Via` header is added, the target's status is written, and
  -- each read of the body that is not empty is written, in order. The target's headers are lost.
  pub response_reaches_client :
      (header : Header) (reads : List Text) (p : ℕ) (c : Client) {r : IntermediateRequest}
      (m : DarkLaunchManager Net) (duration : ℤ) (q : ℕ) (w : World) {calls : ResponseWriter}
      → (socket p c).session ≡ true
      → (socket p c).request_to_target ≡ some r
      → r.failure ≡ none
      → r.ptc_resp ≡ with_http_method (with_source_url new_response_builder url) method
      → (the q w).resp_writer ≡ some calls
      → takes_status calls (pos status) ≡ true
      → (frames : List SentFrame) × (c' : Client) × (w' : World) × (target_answers no_failures
            (answered
              (record { status_code = pos status; status = reason; header = header })
              (record { reads = reads; ends_with = none }))
            p
            c
          ≡ some c')
        × ((socket p c').sent ≡ (socket p c).sent ++ frames)
        × (run_forever m [] q (delivered frames) (closed 1000 duration) w ≡ some w')
        × ((the q w').resp_writer
            ≡ some (
                calls
                ++ (add_header (codes "Via") (codes "1.1 crnk")
                    ∷ write_header (pos status)
                    ∷ map write (non_empty reads))))
  response_reaches_client header reads p c m duration q w opened asked alive made waits takes =
      let (msg, c', parsed, answers, sent, complete, counted) =
        target_answers-relayed status reason method url fits reason_line method_word method_line
          url_word url_line header reads p c opened asked alive made in
      let (w', runs, writes) =
        run_forever-writes m q msg (non_empty reads) duration w waits parsed takes in
      (
        text_message msg ∷ (data_frames reads ++ close_message 1000 ∷ []),
        c',
        w',
        answers,
        sent,
        ap (λ fs. run_forever m [] q (text_frame msg ∷ fs) (closed 1000 duration) w)
              (delivered-data reads)
            ∙ runs,
        writes,
      )

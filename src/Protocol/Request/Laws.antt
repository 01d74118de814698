-- ===== src/Protocol/Request/Laws.antt =====
-- Round trips between request messages and their parsed form, and the messages that panic.
use crank4go.Base.{
  ◌≡◌, refl, sym, ap, ◌∙◌, ◌≢◌, ◌↔◌, ◌⊎◌, inl, inr, false, none, some, List, [], ◌∷◌, ◌++◌,
  append_assoc, append-nil, arith, Text, Parts, parts, text_eq, text_eq_iff, split, join,
  join-split, join-last, terminated, split-append, split-terminated, split-Lacks, length, but_last,
  last, copy, copy-replicate, length-but_last, All, Lacks, Bool-cases, some_eq, replicate,
}
use crank4go.Protocol.Headers.{
  nl, space, request_body_ended_marker, request_body_pending_marker, request_has_no_body_marker,
  append_headers, append_headers-terminated, new_headers_builder, supporting_http_version,
}
use crank4go.Protocol.Request.{
  Request, RequestBuilder, build, read_request, new_request, to_protocol_message, write_lines,
  with_req_body_pending, with_req_has_no_body, with_req_headers, with_req_line, new_request_builder,
}

write_lines-terminated :
    (out : Text) (hs : List Text) → write_lines out hs ≡ out ++ terminated nl hs
unfolding write_lines
write_lines-terminated out [] = sym (append-nil out)
write_lines-terminated out (h ∷ hs) = write_lines-terminated _ hs ∙ simp append_assoc

-- The copy fills the slice that was made for it.
copied :
    (l : Text) (ls : List Text) → copy (replicate (length ls) []) (but_last l ls) ≡ but_last l ls
copied l ls = rw (← length-but_last l ls) (copy-replicate [] (but_last l ls))

-- A line with a space is not empty.
line_with_space :
    (s dest : Text) (more : List Text) → (split space s).others ≡ dest ∷ more → text_eq s [] ≡ false
unfolding split text_eq
line_with_space [] dest more e = cc
line_with_space (c ∷ s) dest more e = refl

read_request-message :
    (p : Parts) (bits others : List Text) (r : Request)
    → (split space p.first).others ≡ bits
    → read_request p bits others ≡ some r
    → to_protocol_message r ≡ join nl p.first others
unfolding read_request to_protocol_message
read_request-message p [] others r e h = cc
read_request-message p (dest ∷ more) [] r e h = cc
read_request-message p (dest ∷ more) (l ∷ ls) r e h =
    ap to_protocol_message (sym (some_eq h))
    ∙ rw (
      line_with_space p.first dest more e,
      write_lines-terminated,
      copied,
      append_assoc,
      ← join-last nl l ls,
    )

-- Whatever message is parsed without a panic, the parsed request prints as that message.
pub to_protocol_message-new_request :
    (msg : Text) {r : Request} → new_request msg ≡ some r → to_protocol_message r ≡ msg
unfolding new_request to_protocol_message
to_protocol_message-new_request msg {r} h =
    elim (Bool-cases (text_eq msg request_body_ended_marker)) [
      | inl e ↦ ap to_protocol_message (sym (some_eq (rw e at h)))
      | inr e ↦ read_request-message (split nl msg) _ _ r refl (rw e at h) ∙ join-split nl msg
    ]

-- A message panics exactly when it is not the end-of-body marker and either its first line has no
-- space or it has one line only.
pub new_request-eq-none :
    (msg : Text)
    → (new_request msg ≡ none) ↔ (
        (msg ≢ request_body_ended_marker)
        × (((split space (split nl msg).first).others ≡ []) ⊎ ((split nl msg).others ≡ [])))
unfolding new_request read_request
new_request-eq-none msg = (
  λ h. ground (arith, text_eq_iff msg request_body_ended_marker),
  λ h. ground (arith, text_eq_iff msg request_body_ended_marker),
)

but_last-lines :
    (h : Text) (hs : List Text) (marker : Text)
    → but_last h (hs ++ [] ∷ marker ∷ []) ≡ h ∷ hs ++ [] ∷ []
but_last-lines h [] marker = refl
but_last-lines h (k ∷ hs) marker = ap (◌∷◌ h) (but_last-lines k hs marker)

last-lines : (h : Text) (hs : List Text) (marker : Text) → last h (hs ++ [] ∷ marker ∷ []) ≡ marker
last-lines h [] marker = refl
last-lines h (k ∷ hs) marker = last-lines k hs marker

read_request-lines :
    (p : Parts) (dest : Text) (more hs : List Text) (marker : Text)
    → read_request p (dest ∷ more) (hs ++ [] ∷ marker ∷ [])
      ≡ some (record {
        http_method = (split space p.first).first;
        dest = dest;
        headers = some (hs ++ [] ∷ []);
        end_marker = marker;
        request_line = p.first;
      })
unfolding read_request
read_request-lines p dest more [] marker = refl
read_request-lines p dest more (h ∷ hs) marker =
    rw (copied h (hs ++ [] ∷ marker ∷ []), but_last-lines h hs marker, last-lines h hs marker)

-- The request line that the reverse proxy writes.
abbrev pub request_line : Text → Text → Text
request_line method dest = method ++ space ∷ (dest ++ space ∷ supporting_http_version)

abbrev pub header_message : Text → Text → List Text → RequestBuilder
header_message method dest hs =
    with_req_headers (with_req_line new_request_builder (request_line method dest))
      (append_headers new_headers_builder hs)

abbrev pub parsed_request : Text → Text → List Text → Text → Request
parsed_request method dest hs marker = record {
  http_method = method;
  dest = dest;
  headers = some (hs ++ [] ∷ []);
  end_marker = marker;
  request_line = request_line method dest;
}

not_nil : (hs : List Text) (h : Text) (more : List Text) → hs ++ h ∷ more ≢ []
not_nil [] h more e = cc
not_nil (k ∷ hs) h more e = cc

request_line-ne-nil : (method dest : Text) → text_eq (request_line method dest) [] ≡ false
unfolding text_eq
request_line-ne-nil [] dest = refl
request_line-ne-nil (c ∷ s) dest = refl

module _ (method dest : Text) (hs : List Text) (method_word : Lacks space method)
    (dest_word : Lacks space dest) (line_of_text : Lacks nl (request_line method dest))
    (lines : All (Lacks nl) hs) where
  message : Text → Text
  message marker = request_line method dest ++ nl ∷ (terminated nl hs ++ nl ∷ marker)

  split-message :
      (marker : Text)
      → Lacks nl marker
      → split nl (message marker)
        ≡ record { first = request_line method dest; others = hs ++ [] ∷ marker ∷ [] }
  unfolding message
  split-message marker k = rw (
    split-append nl (request_line method dest) _ line_of_text,
    split-terminated nl hs _ lines,
    split-append nl [] marker tt,
    split-Lacks nl marker k,
  )

  -- A message with headers has several lines, and the end marker one.
  message-ne-marker : (marker : Text) → Lacks nl marker → message marker ≢ request_body_ended_marker
  unfolding split
  message-ne-marker marker k e =
      not_nil hs [] (marker ∷ [])
        (ap (λ (p : Parts). p.others) (sym (split-message marker k) ∙ ap (split nl) e))

  new_request-message :
      (marker : Text)
      → Lacks nl marker
      → new_request (message marker) ≡ some (parsed_request method dest hs marker)
  unfolding new_request
  new_request-message marker k =
      elim (Bool-cases (text_eq (message marker) request_body_ended_marker)) [
        | inl e ↦ absurd (message-ne-marker marker k ((text_eq_iff _ _).0 e))
        | inr e ↦
            rw
              (
                e,
                split-message marker k,
                split-append space method _ method_word,
                split-append space dest _ dest_word,
              )
              (read_request-lines
                  (record { first = request_line method dest; others = hs ++ [] ∷ marker ∷ [] })
                  dest (parts (split space supporting_http_version)) hs marker
                ∙ rw (split-append space method _ method_word))
      ]

  build-message :
      (marker : Text)
      → build (record (header_message method dest hs) { end_marker = marker }) ≡ message marker
  unfolding build message
  build-message marker =
      rw (request_line-ne-nil method dest, append_headers-terminated)
        (append_assoc (request_line method dest) _ _)

  -- A request with header lines, marked as having no body or a pending body, is parsed into its
  -- method, its destination, its header lines with one empty line behind them, and the marker, if
  -- method and destination hold no space and nothing holds a newline.
  pub new_request-build :
      (new_request (build (with_req_has_no_body (header_message method dest hs)))
        ≡ some (parsed_request method dest hs request_has_no_body_marker))
      × (new_request (build (with_req_body_pending (header_message method dest hs)))
          ≡ some (parsed_request method dest hs request_body_pending_marker))
  new_request-build = (
    rw (build-message request_has_no_body_marker) (new_request-message _ (omega arith)),
    rw (build-message request_body_pending_marker) (new_request-message _ (omega arith)),
  )

-- ===== src/Protocol/Response/Laws.antt =====
-- What a parsed response keeps of the response that was built, and what it loses.
use crank4go.Base.{
  ℕ, ◌≡◌, sym, ap, ◌<◌, ◌^◌, ◌↔◌, ◌⊎◌, none, some, List, [], ◌∷◌, ◌++◌, append_assoc, arith, Text,
  parts, codes, split, split-append, split-Lacks, All-append, Lacks, pos, itoa, atoi-itoa,
  itoa-Lacks, some_eq, ◌>>=◌,
}
use crank4go.Protocol.Headers.{nl, space, HeadersBuilder}
use crank4go.Protocol.Response.{
  Response, ResponseBuilder, build, read_response, new_response, third, second,
  new_response_builder, with_resp_status, with_resp_reason, with_resp_headers, with_source_url,
  with_http_method,
}

no_headers :
    (bits others : List Text) (r : Response) → read_response bits others ≡ some r → r.headers ≡ []
unfolding read_response
no_headers [] others r h = cc
no_headers (code ∷ more) [] r h = cc
no_headers (code ∷ more) (l ∷ ls) r h = ap (λ (x : Response). x.headers) (sym (some_eq h))

-- A parsed response never has a header, whatever header lines the message carries.
pub new_response-headers : (msg : Text) {r : Response} → new_response msg ≡ some r → r.headers ≡ []
unfolding new_response
new_response-headers msg {r} h = no_headers _ _ r h

-- A response message panics exactly when its first line has no space or it has one line only.
pub new_response-eq-none :
    (msg : Text)
    → (new_response msg ≡ none)
      ↔ (((split space (split nl msg).first).others ≡ []) ⊎ ((split nl msg).others ≡ []))
unfolding new_response read_response
new_response-eq-none msg = (λ h. ground arith, λ h. ground arith)

first_word : (sep : ℕ) (s rest : Text) → (split sep (s ++ sep ∷ rest)).first ≡ (split sep s).first
unfolding split
first_word sep [] rest = ground arith
first_word sep (c ∷ s) rest = ground (arith, first_word sep s rest)

-- The calls that the connector socket makes on its builder.
abbrev pub response_builder : ℕ → Text → Text → Text → HeadersBuilder → ResponseBuilder
response_builder status reason method url h =
    with_resp_headers
      (with_resp_reason
        (with_resp_status (with_http_method (with_source_url new_response_builder url) method)
          (pos status))
        reason)
      h

module _ (status : ℕ) (reason method url : Text) (h : HeadersBuilder) (fits : status < 2 ^ 63)
    (reason_line : Lacks nl reason) (method_word : Lacks space method)
    (method_line : Lacks nl method) (url_word : Lacks space url) (url_line : Lacks nl url) where
  status_line : Text
  status_line = codes "HTTP/1.1 " ++ (itoa (pos status) ++ space ∷ (reason ++ space ∷ []))

  status_line-Lacks : Lacks nl status_line
  unfolding status_line
  status_line-Lacks = All-append _ (codes "HTTP/1.1 ") _ (omega arith) (
      All-append _ (itoa (pos status)) _ (itoa-Lacks nl status (omega arith))
        ((λ q. omega arith), All-append _ reason _ reason_line (omega arith)))

  request_line : Text
  request_line = method ++ space ∷ url

  request_line-Lacks : Lacks nl request_line
  unfolding request_line
  request_line-Lacks = All-append _ method _ method_line ((λ q. omega arith), url_line)

  build-lines :
      build (response_builder status reason method url h)
      ≡ some (status_line ++ nl ∷ (request_line ++ nl ∷ h.headers))
  unfolding build status_line request_line
  build-lines = simp append_assoc

  split_lines :
      split nl (status_line ++ nl ∷ (request_line ++ nl ∷ h.headers))
      ≡ record { first = status_line; others = request_line ∷ parts (split nl h.headers) }
  split_lines = rw (
    split-append nl status_line _ status_line-Lacks,
    split-append nl request_line _ request_line-Lacks,
  )

  split-status_line :
      (split space status_line).others
      ≡ itoa (pos status) ∷ parts (split space (reason ++ space ∷ []))
  unfolding status_line
  split-status_line = rw (
    split-append space (codes "HTTP/1.1") _ (omega arith),
    split-append space (itoa (pos status)) _ (itoa-Lacks space status (omega arith)),
  )

  split-request_line : split space request_line ≡ record { first = method; others = url ∷ [] }
  unfolding request_line
  split-request_line =
      rw (split-append space method url method_word, split-Lacks space url url_word)

  -- A response built with a status, a reason, a method, a URL and headers is read back with its
  -- status, the first word of the reason, the method and the URL, and with no header at all, if
  -- reason, method and URL hold no newline and method and URL no space.
  pub new_response-build :
      (build (response_builder status reason method url h) >>= new_response)
      ≡ some (record {
        headers = [];
        status = pos status;
        reason = (split space reason).first;
        source_url = url;
        http_method = method;
      })
  unfolding new_response read_response third second
  new_response-build = rw (
    build-lines,
    split_lines,
    split-status_line,
    split-request_line,
    atoi-itoa status fits,
    first_word space reason [],
  )

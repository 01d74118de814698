-- ===== src/Connector/Socket/Headers.antt =====
-- putHeadersTo: the header lines of a message become the headers of the request to the target.
use crank4go.Base.{
  ◌≡◌, ◌≢◌, refl, sym, ap, ◌∙◌, some, List, [], ◌∷◌, ◌++◌, append_assoc, append-nil, map, arith,
  Text, codes, cut_at, All, Lacks,
}
use crank4go.Protocol.Headers.{colon}
use crank4go.Protocol.Request.Laws.{parsed_request}
use crank4go.Protocol.Response.{new_response_builder, with_source_url, with_http_method}
use crank4go.Connector.Plugins.{handle_plugins_before_request_sent}
use crank4go.Connector.Target.{
  IntermediateRequest, new_intermediate_request, add, agent, with_method,
}
use crank4go.Connector.Socket.{put_line, put_lines, put_headers_to, target_request}

-- A name that a header line can carry.
abbrev pub NameFine : Text × Text → Type 0
NameFine (name, value) = (name ≢ []) × Lacks colon name

abbrev pub line_of : Text × Text → Text
line_of (name, value) = name ++ colon ∷ value

cut_at-line :
    (name value : Text)
    → Lacks colon name
    → cut_at colon (name ++ colon ∷ value) ≡ some (name, value)
unfolding cut_at
cut_at-line [] value h = ground arith
cut_at-line (c ∷ name) value (hc, h) = ground (arith, cut_at-line name value h)

put_line-name :
    (name value : Text) (r : IntermediateRequest)
    → name ≢ []
    → put_line (some (name, value)) r ≡ add name value r
unfolding put_line
put_line-name [] value r h = absurd (h refl)
put_line-name (c ∷ name) value r h = refl

-- The lines of headers are put as these headers, in their order.
put_lines-pairs :
    (pairs : List (Text × Text)) (r : IntermediateRequest)
    → All NameFine pairs
    → put_lines (map line_of pairs ++ [] ∷ []) r ≡ record r { headers = r.headers ++ pairs }
unfolding put_lines put_line cut_at
put_lines-pairs [] r h = λ i. record r { headers = sym (append-nil r.headers) i }
put_lines-pairs ((name, value) ∷ pairs) r ((some_name, word), h) =
    ap (λ o. put_lines (map line_of pairs ++ [] ∷ []) (put_line o r)) (cut_at-line name value word)
    ∙ ap (put_lines (map line_of pairs ++ [] ∷ [])) (put_line-name name value r some_name)
    ∙ put_lines-pairs pairs (add name value r) h
    ∙ (λ i. record r { headers = append_assoc r.headers ((name, value) ∷ []) pairs i })

-- Without plugins, what is read of a message of the router becomes a request to the target with the
-- method of the message and its headers, between an empty user agent and the `Via` header.
pub target_request-headers :
    (dest method uri marker : Text) (pairs : List (Text × Text))
    → All NameFine pairs
    → let r = (target_request [] dest (parsed_request method uri (map line_of pairs) marker)).1 in
      (r.method ≡ method)
      × (r.url ≡ dest)
      × (r.headers ≡ (codes "User-Agent", []) ∷ (pairs ++ (codes "Via", codes "1.1 crnk") ∷ []))
unfolding target_request put_headers_to handle_plugins_before_request_sent agent with_method
    new_intermediate_request
target_request-headers dest method uri marker pairs h =
    let made : IntermediateRequest = agent [] (
      with_method method (record (new_intermediate_request dest) {
        ptc_resp = with_http_method (with_source_url new_response_builder uri) method;
      })) in
    let e = put_lines-pairs pairs made h in
    (
      ap (λ (x : IntermediateRequest). x.method) e,
      ap (λ (x : IntermediateRequest). x.url) e,
      ap (λ (x : IntermediateRequest). x.headers ++ (codes "Via", codes "1.1 crnk") ∷ []) e,
    )

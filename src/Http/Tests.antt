-- ===== src/Http/Tests.antt =====
-- The theorems about the pipeline at concrete handlers and requests.
use crank4go.Base.{◌≡◌, refl, true, false, none, some, [], ◌∷◌, ◌++◌, codes, text_eq}
use crank4go.Http.{
  set_header, write, ResponseWriter, HttpRequest, XHandler, req_validator_filter, header_get,
}
use crank4go.Http.Pipeline.{
  XHttpHandler, Filter, elements, run_all, serve_xhttp, convert_to_http_router_handler_with_filters,
  serve_xhttp-stopped, convert-passed,
}

abbrev trace_request : HttpRequest
trace_request = record {
  method = codes "TRACE";
  path = codes "/a";
  raw_query = [];
  scheme = [];
  host = codes "h";
  remote_addr = codes "10.0.0.1:80";
  header = [];
}

abbrev get_request : HttpRequest
get_request = record trace_request { method = codes "GET" }

abbrev hello : XHandler ResponseWriter
hello r w = (w ++ write (codes "hello") ∷ [], false)

abbrev marks : XHandler ResponseWriter
marks r w = (w ++ set_header (codes "M") (codes "1") ∷ [], false)

abbrev pipeline : XHttpHandler ResponseWriter
pipeline = record {
  req_handlers = some (marks ∷ req_validator_filter ∷ marks ∷ []);
  resp_handlers = some (marks ∷ []);
  target_handler = hello;
}

validator_stops :
    (req_validator_filter trace_request (run_all (marks ∷ []) trace_request [])).1 ≡ true
unfolding req_validator_filter run_all text_eq header_get
validator_stops = refl

serve_xhttp-stopped_example :
    serve_xhttp pipeline trace_request []
    ≡ (req_validator_filter trace_request (run_all (marks ∷ []) trace_request [])).0
serve_xhttp-stopped_example =
    serve_xhttp-stopped pipeline (marks ∷ []) (marks ∷ []) req_validator_filter trace_request []
      refl (refl, tt) validator_stops

validator_passes : (req_validator_filter get_request (marks get_request []).0).1 ≡ false
unfolding req_validator_filter text_eq header_get
validator_passes = refl

abbrev marking_filter : Filter ResponseWriter
marking_filter = record { req_filters = some (marks ∷ []); resp_filters = none }

convert-passed_example :
    convert_to_http_router_handler_with_filters marking_filter hello get_request []
    ≡ run_all
        (elements marking_filter.resp_filters)
        get_request
        (hello get_request (run_all (elements marking_filter.req_filters) get_request [])).0
convert-passed_example = convert-passed marking_filter hello get_request [] (refl, tt)

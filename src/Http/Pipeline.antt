-- ===== src/Http/Pipeline.antt =====
-- router/handler/handler.go: `XHTTPHandler`, its filters and the order in which they run; and the
-- `Filter` of router/api/darklaunch_service_resource.go, from which each resource builds one.
use crank4go.Base.{◌≡◌, refl, true, false, Option, none, some, List, [], ◌∷◌, ◌++◌, if◌then◌else◌}
use crank4go.Http.{XHandler, HttpRequest}

-- A nil slice is `none`.
pub record XHttpHandler (W : Type 0) : Type 0 where
  pub req_handlers : Option (List (XHandler W))
  pub resp_handlers : Option (List (XHandler W))
  pub target_handler : XHandler W

abbrev pub elements {ℓ} : {A : Type ℓ} → Option (List A) → List A
elements none = []
elements (some xs) = xs

-- Appending no element to a nil slice leaves it nil.
abbrev pub append_all {ℓ} : {A : Type ℓ} → Option (List A) → List A → Option (List A)
append_all none [] = none
append_all none (x ∷ xs) = some (x ∷ xs)
append_all (some ys) xs = some (ys ++ xs)

abbrev pub or_empty {ℓ} : {A : Type ℓ} → Option (List A) → Option (List A)
or_empty none = some []
or_empty (some ys) = some ys

module _ {W : Type 0} where
  unfoldable pub new_x_http_handler : XHandler W → XHttpHandler W
  new_x_http_handler target = record {
    req_handlers = none;
    resp_handlers = none;
    target_handler = target;
  }

  -- The loop over the response handlers ignores what they return.
  unfoldable pub run_all : List (XHandler W) → HttpRequest → W → W
  run_all [] r w = w
  run_all (h ∷ hs) r w = run_all hs r (h r w).0

  behind_target : XHttpHandler W → HttpRequest → W → W
  unfolding run_all
  behind_target x r w = run_all (elements x.resp_handlers) r (x.target_handler r w).0

  serve_from : List (XHandler W) → XHttpHandler W → HttpRequest → W → W
  unfolding behind_target
  serve_from [] x r w = behind_target x r w
  serve_from (h ∷ hs) x r w =
      let go_on = serve_from hs x r (h r w).0 in if (h r w).1 then (h r w).0 else go_on

  -- ServeXHTTP; ServeHTTP calls it without parameters.
  unfoldable pub serve_xhttp : XHttpHandler W → HttpRequest → W → W
  unfolding serve_from
  serve_xhttp x r w = serve_from (elements x.req_handlers) x r w

  -- Where there is no request handler yet it is the response handlers that are made anew.
  unfoldable pub add_req_handlers : XHttpHandler W → List (XHandler W) → XHttpHandler W
  add_req_handlers x handlers = record x {
    req_handlers = append_all x.req_handlers handlers;
    resp_handlers = elim x.req_handlers [ none ↦ some [] | some hs ↦ x.resp_handlers ];
  }

  unfoldable pub add_resp_handlers : XHttpHandler W → List (XHandler W) → XHttpHandler W
  add_resp_handlers x handlers = record x {
    resp_handlers = append_all (or_empty x.resp_handlers) handlers;
  }

  -- Each handler of a list lets the request pass.
  abbrev pub Passes : List (XHandler W) → HttpRequest → W → Type 0
  Passes [] r w = Unit
  Passes (h ∷ hs) r w = ((h r w).1 ≡ false) × Passes hs r (h r w).0

  serve_from-stopped :
      (before : List (XHandler W)) (h : XHandler W) (behind : List (XHandler W))
      (x : XHttpHandler W) (r : HttpRequest) (w : W)
      → Passes before r w
      → (h r (run_all before r w)).1 ≡ true
      → serve_from (before ++ h ∷ behind) x r w ≡ (h r (run_all before r w)).0
  unfolding serve_from run_all
  serve_from-stopped [] h behind x r w p stops = rw stops
  serve_from-stopped (g ∷ before) h behind x r w (goes_on, p) stops =
      rw goes_on (serve_from-stopped before h behind x r (g r w).0 p stops)

  serve_from-passed :
      (hs : List (XHandler W)) (x : XHttpHandler W) (r : HttpRequest) (w : W)
      → Passes hs r w
      → serve_from hs x r w
        ≡ run_all (elements x.resp_handlers) r (x.target_handler r (run_all hs r w)).0
  unfolding serve_from run_all
  serve_from-passed [] x r w p = refl
  serve_from-passed (g ∷ hs) x r w (goes_on, p) = rw goes_on (serve_from-passed hs x r (g r w).0 p)

  -- When some request handlers let a request pass and the next one stops it, the outcome is what
  -- these handlers leave: neither a later handler nor the target nor a response handler runs.
  pub serve_xhttp-stopped :
      (x : XHttpHandler W) (before behind : List (XHandler W)) (h : XHandler W) (r : HttpRequest)
      (w : W)
      → x.req_handlers ≡ some (before ++ h ∷ behind)
      → Passes before r w
      → (h r (run_all before r w)).1 ≡ true
      → serve_xhttp x r w ≡ (h r (run_all before r w)).0
  unfolding serve_xhttp
  serve_xhttp-stopped x before behind h r w e p stops =
      simp e (serve_from-stopped before h behind x r w p stops)

  -- When all request handlers pass, they run in order, then the target, then all response handlers.
  pub serve_xhttp-passed :
      (x : XHttpHandler W) (r : HttpRequest) (w : W)
      → Passes (elements x.req_handlers) r w
      → serve_xhttp x r w
        ≡ run_all
            (elements x.resp_handlers)
            r
            (x.target_handler r (run_all (elements x.req_handlers) r w)).0
  unfolding serve_xhttp
  serve_xhttp-passed x r w p = serve_from-passed _ x r w p

  -- Response handlers that are added before the first request handlers are lost.
  pub add_req_handlers-loses :
      (target : XHandler W) (hs rs : List (XHandler W))
      → add_req_handlers (add_resp_handlers (new_x_http_handler target) rs) hs
        ≡ add_req_handlers (new_x_http_handler target) hs
  unfolding add_req_handlers add_resp_handlers new_x_http_handler
  add_req_handlers-loses target hs rs = refl

-- `Filter` with its slices.
pub record Filter (W : Type 0) : Type 0 where
  pub req_filters : Option (List (XHandler W))
  pub resp_filters : Option (List (XHandler W))

abbrev pub new_filter : {W : Type 0} → Filter W
new_filter = record { req_filters = none; resp_filters = none }

module _ {W : Type 0} where
  unfoldable pub add_req_filters : Filter W → List (XHandler W) → Filter W
  add_req_filters f handlers = record f {
    req_filters = append_all (or_empty f.req_filters) handlers;
  }

  unfoldable pub add_resp_filters : Filter W → List (XHandler W) → Filter W
  add_resp_filters f handlers = record f {
    resp_filters = append_all (or_empty f.resp_filters) handlers;
  }

  -- convertToHttpRouterHandlerWithFilters
  unfoldable pub convert_to_http_router_handler_with_filters :
      Filter W → XHandler W → HttpRequest → W → W
  unfolding add_req_handlers add_resp_handlers new_x_http_handler serve_xhttp
  convert_to_http_router_handler_with_filters f function = serve_xhttp (
      add_resp_handlers (add_req_handlers (new_x_http_handler function) (elements f.req_filters))
        (elements f.resp_filters))

  elements-append_all : (hs : List (XHandler W)) → elements (append_all none hs) ≡ hs
  elements-append_all [] = refl
  elements-append_all (h ∷ hs) = refl

  -- A resource's handler behind its filters: if every request filter lets the request pass, they
  -- run in order, then the function, then every response filter.
  pub convert-passed :
      (f : Filter W) (function : XHandler W) (r : HttpRequest) (w : W)
      → Passes (elements f.req_filters) r w
      → convert_to_http_router_handler_with_filters f function r w
        ≡ run_all (elements f.resp_filters) r (function r (run_all (elements f.req_filters) r w)).0
  unfolding convert_to_http_router_handler_with_filters
  convert-passed f function r w p =
      rw (elements-append_all (elements f.req_filters))
        (serve_from-passed (elements f.req_filters) _ r w p)

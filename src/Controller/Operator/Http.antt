-- ===== src/Controller/Operator/Http.antt =====
-- The HTTP handlers of pkg/controller/controller.go. `http.Handle` of Go panics on a pattern that has
-- a handler; the patterns are paths that do not end in a slash.
use saiki.Prelude.{
  ◌≡◌, ℕ, Bool, true, false, [], Option, none, some, if◌then◌else◌, Str, ◌==◌, str_eq, nat_eq,
  codes,
}
use saiki.Prelude.Dict.{Dict, lookup, insert}

-- the options of the server
pub record HttpOptions : Type 0 where
  pub metrics_handler : Str
  pub readiness_handler : Str
  pub http_server_port : ℕ

pub data HttpHandler : Type 0 where
  prometheus readiness : HttpHandler

pub record Response : Type 0 where
  pub status : ℕ
  pub text : Str

unfoldable pub handle : Str → HttpHandler → Dict Str HttpHandler → Option (Dict Str HttpHandler)
handle pattern_text handler mux = elim (lookup pattern_text mux) [
  | some other ↦ none
  | none ↦ some (insert pattern_text handler mux)
]

unfoldable pub register_metrics_handler :
    HttpOptions → Dict Str HttpHandler → Option (Dict Str HttpHandler)
unfolding handle
register_metrics_handler h mux =
    if h.metrics_handler == [] then some mux else handle h.metrics_handler prometheus mux

unfoldable pub register_readiness_handler :
    HttpOptions → Dict Str HttpHandler → Option (Dict Str HttpHandler)
unfolding handle
register_readiness_handler h mux =
    if h.readiness_handler == [] then some mux else handle h.readiness_handler readiness mux

-- `startHTTPServer` up to its call of `ListenAndServe`; `none` is a panic
unfoldable pub start_http_server : HttpOptions → Option (Dict Str HttpHandler)
unfolding register_metrics_handler register_readiness_handler
start_http_server h = elim (register_metrics_handler h []) [
  | none ↦ none
  | some mux ↦ register_readiness_handler h mux
]

-- the readiness handler
unfoldable pub respond : Bool → Response
respond true = record { status = 200; text = codes "ok" }
respond false = record { status = 503; text = codes "saiki is still initializing" }

route : Bool → Option HttpHandler → Option Response
unfolding respond
route ready (some readiness) = some (respond ready)
route ready (some prometheus) = none
route ready none = none

-- What the handlers of the operator answer at a path; the metrics are left to the Prometheus library.
unfoldable pub answer : HttpOptions → Str → Bool → Option Response
unfolding start_http_server route
answer h path ready = elim (start_http_server h) [
  | none ↦ none
  | some mux ↦ if h.http_server_port == 0 then none else route ready (lookup path mux)
]

-- Every response is that of the readiness handler.
pub answer-respond :
    (h : HttpOptions) (path : Str) (ready : Bool) (a : Response)
    → answer h path ready ≡ some a
    → a ≡ respond ready
unfolding answer
answer-respond h path ready a e = go (start_http_server h) e
  where
    routed : (o : Option HttpHandler) → route ready o ≡ some a → a ≡ respond ready
    routed (some readiness) e = cc
    routed (some prometheus) e = cc
    routed none e = cc

    served :
        (b : Bool) (o : Option HttpHandler)
        → (if b then none else route ready o) ≡ some a
        → a ≡ respond ready
    served true o e = cc
    served false o e = routed o e

    go :
        (m : Option (Dict Str HttpHandler))
        → (elim m as (λ _. Option Response) [
          | none ↦ none
          | some mux ↦ if h.http_server_port == 0 then none else route ready (lookup path mux)
        ])
          ≡ some a
        → a ≡ respond ready
    go none e = cc
    go (some mux) e = served (h.http_server_port == 0) (lookup path mux) e

-- ===== src/Http.antt =====
-- What a service makes of an HTTP request before and after its handlers (the `build_router` of oetp-edge,
-- oetp-ledger and oetp-beacon). The crates axum and tower are parameters.
pub mod Toy
pub mod RateLimit
pub mod Cors
mod Tests
use oetp.Prelude.{ℕ, ◌-◌, ◌%◌, String, Option, none, some, List, take, any, Bytes}
use oetp.Result.{ok, ◌>>=◌}
use oetp.Api.{ApiResult, Headers}

pub data Method : Type 0 where
  get post other_method : Method

-- `.route(path, method(endpoint))`
pub record Route (E : Type 0) : Type 0 where
  pub path : String
  pub method : Method
  pub endpoint : E

abbrev pub route : {E : Type 0} → String → Method → E → Route E
route path method endpoint = record { path = path; method = method; endpoint = endpoint }

pub record HttpRequest : Type 0 where
  pub method : Method
  pub path : Bytes
  pub headers : Headers
  pub body : Bytes

-- axum and tower: the status with which a layer (the limits on the rate and on the body's size, or CORS
-- with a preflight) answers a request itself, the route that a request takes, the status where there is none, and the status of a body
-- that the extractor `Json` refuses.
pub record Router : Type 1 where
  pub refused_by_layer : HttpRequest → Option ℕ
  pub select : {E : Type 0} → List (Route E) → HttpRequest → Option E
  pub missed : HttpRequest → ℕ
  pub json_rejected : HttpRequest → ℕ

-- The reply of a handler, or a refusal before any handler ran.
pub data Response (A : Type 0) : Type 0 where
  handled : ApiResult A → Response A
  refused : ℕ → Response A

module _ {W A : Type 0} where
  -- A handler whose body is parsed first.
  abbrev pub with_json : {B : Type 0} → ℕ → Option B → (B → W → Response A × W) → W → Response A × W
  with_json status none k w = (refused status, w)
  with_json status (some b) k w = k b w

  module _ {E : Type 0} (router : Router) (routes : List (Route E))
      (handle : E → HttpRequest → W → Response A × W) where
    abbrev pub dispatch : Option E → HttpRequest → W → Response A × W
    dispatch none req w = (refused (router.missed req), w)
    dispatch (some e) req w = handle e req w

    -- One request: the layers, the route, the handler.
    abbrev pub serve_through : Option ℕ → HttpRequest → W → Response A × W
    serve_through (some status) req w = (refused status, w)
    serve_through none req w = dispatch (router.select routes req) req w

    unfoldable pub serve_request : HttpRequest → W → Response A × W
    serve_request req w = serve_through (router.refused_by_layer req) req w

    -- What holds of the outcome of every handler and of every refusal holds of every request.
    pub serve_request_induction {ℓ} :
        (P : Response A × W → Type ℓ) (req : HttpRequest) (w : W)
        → ((status : ℕ) → P (refused status, w))
        → ((e : E) → P (handle e req w))
        → P (serve_request req w)
    unfolding serve_request
    serve_request_induction P req w turned away = through (router.refused_by_layer req)
      where
        routed : (o : Option E) → P (dispatch o req w)
        routed none = turned (router.missed req)
        routed (some e) = away e

        through : (o : Option ℕ) → P (serve_through o req w)
        through (some status) = turned status
        through none = routed (router.select routes req)

-- `Ok(Json(...))` of a handler's value.
abbrev pub reply_of : {A B : Type 0} → (A → B) → ApiResult A → Response B
reply_of f r = handled (r >>= λ a. ok (f a))

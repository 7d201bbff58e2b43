-- ===== src/Handler/Http.antt =====
-- What the handlers of internal/handler/api.go share: requests, responses and the values that they
-- answer with. Headers that are not there read as empty, as `Header.Get` does.
use fileflow.Common.{Bool, Bytes, List, Option, String, [], false, true, ℕ, ◌≡◌}
use fileflow.Common.Result.{Result, err, ok}
use fileflow.Auth.Session.{Cookie}
use fileflow.Handler.Proxy.{Origin}

pub data Method : Type 0 where
  post options other_method : Method

-- The body is what the handler's own decoder reads; a cookie is a name and a value.
pub record Request (A : Type 0) : Type 0 where
  pub method : Method
  pub origin : Origin
  pub origin_header : Bytes
  pub bootstrap_header : Bytes
  pub cookies : List (Bytes × Bytes)
  pub body : Option A

-- The answers: an `APIError` by its code and text, and the objects of a successful answer.
pub data Answer : Type 0 where
  error : (code message : String) → Answer
  added device_ok healthy : Answer
  challenged : (id nonce : Bytes) → Answer
  authed : Bool → Answer
  presence : (online required : ℕ) → Answer

pub record Response : Type 0 where
  pub status : ℕ
  pub answer : Answer
  pub set_cookies : List Cookie

unfoldable pub write_json : ℕ → Answer → Response
write_json status answer = record { status = status; answer = answer; set_cookies = [] }

unfoldable pub write_error : ℕ → String → String → Response
unfolding write_json
write_error status code message = write_json status (error code message)

-- `Result Response Response` is a handler's answer: what is left early with, or what it ends with.
abbrev pub answer_of : Result Response Response → Response
answer_of (ok r) = r
answer_of (err r) = r

unfoldable pub is_post : Method → Bool
is_post post = true
is_post _ = false

unfoldable pub method_not_allowed : Response
unfolding write_error
method_not_allowed = write_error 405 "METHOD_NOT_ALLOWED" "Method not allowed"

unfoldable pub handle_healthz : Response
unfolding write_json
handle_healthz = write_json 200 healthy

-- An answer with an error, which sets no cookie.
abbrev pub IsRefusal : Response → Type 0
IsRefusal r =
    (code : String) × (message : String) × (r.answer ≡ error code message) × (r.set_cookies ≡ [])

-- ===== src/Http.antt =====
-- internal/middleware/middleware.go: what stands between a request and its handler. Headers and query
-- values are texts, empty where they are missing. The request id, the real address, the timeout and
-- the limiter are a library's.
mod Access
mod Tests
use rymevisor.Common.{
  ℕ, Bool, true, false, ◌&&◌, ◌||◌, Option, none, some, List, [], ◌∷◌, ◌++◌, ◌==◌, if◌then◌else◌,
  String, str_eq, take, drop, length, ltb,
}
use rymevisor.Net.{Text, codes, text_eq}
use rymevisor.Net.Strings.{trim_space, is_empty}
use Prim.Native.String.{◌++◌ as ◌<>◌}

pub record Request : Type 0 where
  pub method : String
  pub path : String
  pub header : String → Text
  pub query : String → Text

-- What a middleware does: it hands a request on, or answers with a status.
pub data Outcome : Type 0 where
  passed : Request → Outcome
  replied : ℕ → Outcome

abbrev pub comma : ℕ
comma = b','

-- strings.Split at a comma
unfoldable pub split_commas : Text → List Text
split_commas [] = [] ∷ []
split_commas (c ∷ cs) = elim (split_commas cs) [
  | [] ↦ []
  | l ∷ ls ↦ if c == comma then [] ∷ l ∷ ls else (c ∷ l) ∷ ls
]

unfoldable pub trimmed : List Text → List Text
unfolding trim_space
trimmed [] = []
trimmed (p ∷ ps) =
    let rest = trimmed ps in if is_empty (trim_space p) then rest else trim_space p ∷ rest

-- splitAndTrim
unfoldable pub split_and_trim : Text → List Text
unfolding split_commas trimmed
split_and_trim t = trimmed (split_commas t)

abbrev pub or_else : Text → Text → Text
or_else t u = if is_empty t then u else t

-- ExtractAPIKey: the header, then the query.
unfoldable pub extract_api_key : Request → Text
extract_api_key r =
    or_else (r.header "X-API-Key")
      (or_else (r.query "api_key") (or_else (r.query "token") (r.query "key")))

abbrev pub bearer : Text
bearer = codes "Bearer "

abbrev pub is_bearer : Text → Text → Bool
is_bearer valid p = ltb 7 (length p) && (text_eq (take 7 p) bearer && text_eq (drop 7 p) valid)

-- The loop over the websocket protocols: the key, if one of them is it.
unfoldable pub key_among : Text → List Text → Text
unfolding text_eq
key_among valid [] = []
key_among valid (p ∷ ps) =
    let rest = key_among valid ps in
    if text_eq p valid then p else if is_bearer valid p then valid else rest

unfoldable pub provided_key : Text → Request → Text
unfolding extract_api_key split_and_trim key_among
provided_key valid r =
    or_else (extract_api_key r)
      (key_among valid (split_and_trim (r.header "Sec-WebSocket-Protocol")))

abbrev pub is_health : Request → Bool
is_health r =
    str_eq r.path "/health" || (str_eq r.path "/health/live" || str_eq r.path "/health/ready")

-- RequireAPIKey, with the key that the server is configured with.
unfoldable pub require_api_key : Text → Request → Outcome
unfolding provided_key
require_api_key valid r =
    if is_health r
    then passed r
    else if is_empty valid
    then replied 500
    else if text_eq (provided_key valid r) valid
    then passed r
    else replied 401

abbrev cors_headers : List (String × String)
cors_headers =
    ("Access-Control-Allow-Origin", "*")
    ∷ ("Access-Control-Allow-Methods", "GET, POST, PUT, PATCH, DELETE, OPTIONS")
    ∷ (
      "Access-Control-Allow-Headers",
      "Accept, Content-Type, X-API-Key, X-Request-ID, Upgrade, Connection, Sec-WebSocket-Key, "
          <> "Sec-WebSocket-Version, Sec-WebSocket-Protocol",
    )
    ∷ ("Access-Control-Allow-Credentials", "true")
    ∷ ("Access-Control-Max-Age", "86400")
    ∷ []

-- CORS: the headers that it sets on the response, and a preflight request is answered.
unfoldable pub cors : Request → List (String × String) × Outcome
cors r = (cors_headers, if str_eq r.method "OPTIONS" then replied 204 else passed r)

abbrev has_body : Request → Bool
has_body r = str_eq r.method "POST" || (str_eq r.method "PUT" || str_eq r.method "PATCH")

-- ContentType: JSON where a request with a body does not say.
unfoldable pub content_type : Request → Outcome
content_type r =
    if has_body r && is_empty (r.header "Content-Type")
    then passed (record r {
      header =
          λ name. if str_eq name "Content-Type" then codes "application/json" else r.header name;
    })
    else passed r

-- RateLimit, by what the limiter allows.
unfoldable pub rate_limit : Bool → Request → Outcome
rate_limit allowed r = if allowed then passed r else replied 429

-- ===== src/Gateway/Http.antt =====
-- What internal/gateway/server.go reads of a request, and what it answers.
use nexus_dispatch.Prelude.{
  ℕ, ◌*◌, ◌-◌, ◌+◌, Bool, false, Option, none, some, String, ◌==◌, ltb, cut_prefix, before_first,
  before_last, if◌then◌else◌,
}
use nexus_dispatch.Prelude.Int.{ℤ, pos, negsuc}
use nexus_dispatch.Redis.{Float, micro}

-- `http.Request`, with "" for a header or a parameter that is not there.
pub record Request : Type 0 where
  pub method : String
  pub path : String
  pub request_id : String
  pub authorization : String
  pub forwarded_for : String
  pub remote_addr : String
  pub query : String → String
  pub body : String

-- The bodies that the handlers decode.
pub record LoginBody : Type 0 where
  pub email : String
  pub role : String

pub record DriverBody : Type 0 where
  pub name : String
  pub email : String
  pub lat : Float
  pub lng : Float
  pub make : String
  pub model : String
  pub plate : String
  pub seats : ℤ

pub record LocationBody : Type 0 where
  pub lat : Float
  pub lng : Float
  pub seq : ℤ

pub record RideBody : Type 0 where
  pub pickup_lat : Float
  pub pickup_lng : Float
  pub dropoff_lat : Float
  pub dropoff_lng : Float
  pub radius_m : ℤ

-- Package encoding/json, as the handlers call it: a decoder of a body, of which it reads so many bytes
-- at most, and `json.Unmarshal` of a number.
pub record Decoder : Type 0 where
  pub login : ℕ → String → Option LoginBody
  pub driver : ℕ → String → Option DriverBody
  pub state : ℕ → String → Option String
  pub location : ℕ → String → Option LocationBody
  pub ride : ℕ → String → Option RideBody
  pub reason : ℕ → String → Option String
  pub float : String → Option Float
  pub int : String → Option ℤ

abbrev pub max_body : ℕ
max_body = 64 * 1024

-- The body of an answer, over the documents that the services answer.
pub data Answer (Doc : Type 0) : Type 0 where
  failed : String → Answer Doc
  token : String → String → ℕ → Answer Doc
  registered : String → String → Answer Doc
  moved : String → String → Answer Doc
  located : String → Answer Doc
  stale : String → Answer Doc
  requested : String → Answer Doc
  document : Doc → Answer Doc
  nearby : Doc → ℤ → ℤ → Answer Doc
  health_ok is_ready not_found_page : Answer Doc
  upgraded : Answer Doc

-- A status with a body, before the headers that the middleware sets.
pub record Response (Doc : Type 0) : Type 0 where
  pub status : ℕ
  pub answer : Answer Doc

-- `writeJSON`
abbrev pub write_json : {Doc : Type 0} → ℕ → Answer Doc → Response Doc
write_json code v = record { status = code; answer = v }

-- `writeError`; the message is left out
abbrev pub write_error : {Doc : Type 0} → ℕ → String → Response Doc
write_error code err_code = write_json code (failed err_code)

-- `extractToken`
unfoldable pub extract_token : Request → String
extract_token r = elim (cut_prefix "Bearer " r.authorization) [
  | none ↦ r.query "token"
  | some t ↦ t
]

-- The address without the port behind the last colon, if something stands before that colon.
abbrev host_of : String → Option String → String
host_of host none = host
host_of host (some p) = if p == "" then host else p

-- `clientIP`
unfoldable pub client_ip : Request → String
client_ip r =
    if r.forwarded_for == ""
    then host_of r.remote_addr (before_last b':' r.remote_addr)
    else before_first b',' r.forwarded_for

abbrev value_or {ℓ} : {A : Type ℓ} → A → Option A → A
value_or d none = d
value_or d (some a) = a

abbrev is_zero : ℤ → Bool
is_zero (pos n) = ltb n 1
is_zero (negsuc n) = false

-- `float64(n)`
unfoldable pub to_float : ℤ → Float
to_float (pos n) = micro (pos (n * 1000000))
to_float (negsuc n) = micro (negsuc ((n + 1) * 1000000 - 1))

module _ (D : Decoder) (r : Request) where
  -- `queryFloat`
  unfoldable pub query_float : String → Float
  query_float key =
      if r.query key == "" then micro (pos 0) else value_or (micro (pos 0)) (D.float (r.query key))

  -- `queryInt`
  unfoldable pub query_int : String → ℤ → ℤ
  query_int key default =
      let v = if r.query key == "" then pos 0 else value_or (pos 0) (D.int (r.query key)) in
      if is_zero v then default else v

-- ===== src/Pin/Fetch.antt =====
-- `httpGet` and `httpGetOnce` of bazel/modules/rules_rpm/rpm/tools/pin/main.go: the attempts and
-- their waits. What the network answers to an attempt is the argument `ask`; the state `W` is the
-- network's.
pub mod Retry
use distroless.Prelude.{
  ℕ, zero, suc, ◌+◌, ◌-◌, ◌*◌, ◌^◌, Bool, true, false, ◌&&◌, ◌||◌, not, Option, none, some, List,
  [], ◌∷◌, if◌then◌else◌, leb, ltb, ◌==◌, Result, ok, err,
}
use distroless.Strings.{Bytes}

-- what `client.Get` gives; the body is none where reading it fails
pub data Answer : Type 0 where
  no_response : Answer
  response : ℕ → Option Bytes → Answer

pub data HttpError : Type 0 where
  transport_error read_error : HttpError
  http_status : ℕ → HttpError

-- the body, or an error and whether it may be retried
pub data Attempt : Type 0 where
  got : Bytes → Attempt
  failed : HttpError → Bool → Attempt

unfoldable pub read_body : Option Bytes → Attempt
read_body none = failed read_error true
read_body (some body) = got body

unfoldable pub http_get_once : Answer → Attempt
unfolding read_body
http_get_once no_response = failed transport_error true
http_get_once (response status body) =
    if leb 500 status && ltb status 600
    then failed (http_status status) true
    else if not (status == 200)
    then failed (http_status status) false
    else read_body body

abbrev pub max_attempts : ℕ
max_attempts = 3

-- the body or the last error, and the waits between the attempts in units of the base backoff
abbrev pub Fetched : Type 0
Fetched = Result HttpError Bytes × List ℕ

-- what an attempt that is the last comes to
unfoldable pub settled : Attempt → Result HttpError Bytes
settled (got body) = ok body
settled (failed e retryable) = err e

unfoldable pub may_retry : Attempt → Bool
may_retry (got body) = false
may_retry (failed e retryable) = retryable

module _ {W : Type 0} (ask : W → Answer × W) where
  abbrev pub waited : ℕ → Fetched × W → Fetched × W
  waited wait out = ((out.0.0, wait ∷ out.0.1), out.1)

  -- attempt `attempt`, with `left` attempts behind it
  unfoldable pub get_from : ℕ → ℕ → W → Fetched × W
  get_from zero attempt w = ((settled (http_get_once (ask w).0), []), (ask w).1)
  get_from (suc left) attempt w =
      let again = waited (2 ^ (attempt - 1)) (get_from left (attempt + 1) (ask w).1) in
      if may_retry (http_get_once (ask w).0)
      then again
      else ((settled (http_get_once (ask w).0), []), (ask w).1)

  unfoldable pub http_get : W → Fetched × W
  http_get w = get_from (max_attempts - 1) 1 w

-- ===== src/Webhooks/Sending.antt =====
-- backend/app/services/webhooks.py: `send_now`, with the answer of the HTTP client as a parameter.
use distributed_task_platfor.Prelude.{
  ℕ, String, Bool, true, false, ◌&&◌, Option, none, some, leb, join, truncate, if◌then◌else◌,
}

-- What `client.post` does: a response with its status and text, an `httpx.HTTPError`, or another
-- exception with the name of its type.
pub data Posted : Type 0 where
  response : ℕ → String → Posted
  http_failure : String → Posted
  failure : String → String → Posted

-- `response.is_success`.
abbrev pub is_success : ℕ → Bool
is_success status = leb 200 status && leb status 299

pub record SendResult : Type 0 where
  pub sent : Bool
  pub status : Option ℕ
  pub error : String

-- `_sign`, with `hmac` of the secret and the body as a parameter.
unfoldable pub sign : (String → String → String) → Option String → String → String
sign hmac none body = join "sha256=" (hmac "" body)
sign hmac (some secret) body = join "sha256=" (hmac secret body)

module _ (str : ℕ → String) where
  unfoldable pub send_result : Posted → SendResult
  send_result (response status text) =
      if is_success status
      then record { sent = true; status = some status; error = "" }
      else record {
        sent = false;
        status = some status;
        error = join "HTTP " (join (str status) (join ": " (truncate 500 text)));
      }
  send_result (http_failure e) = record {
    sent = false;
    status = none;
    error = join "HTTPError: " e;
  }
  send_result (failure kind e) = record {
    sent = false;
    status = none;
    error = join kind (join ": " e);
  }

  -- What the dispatcher takes of it: the text of the error, or none.
  unfoldable pub error_of : Posted → Option String
  error_of p = let r = send_result p in if r.sent then none else some r.error

-- ===== src/Proxy/Replies.antt =====
-- proxy/handler.go: writeError with the statuses and codes of every answer, NotFound and Disabled. The
-- messages are output and are left out.
use llm_server_manager.Base.{String, Option, none, some, ℕ}
use llm_server_manager.Proxy.Table.{Target}
use llm_server_manager.Proxy.Forward.{
  Answer, bad_request, not_available, stopped_running, bad_gateway, warming_up, passed_through,
}

-- writeError's arguments, and the Retry-After header.
pub record ApiError : Type 0 where
  pub status : ℕ
  pub error_type : String
  pub code : String
  pub retry_after : Option ℕ

-- What the client gets: the response of a target, or an error of the proxy's own.
pub data Reply : Type 0 where
  relayed : Target → Reply
  failed : ApiError → Reply

abbrev pub write_error : ℕ → String → String → ApiError
write_error status error_type code = record {
  status = status;
  error_type = error_type;
  code = code;
  retry_after = none;
}

unfoldable pub reply_of : Answer → Reply
reply_of bad_request = failed (write_error 400 "invalid_request_error" "")
reply_of not_available = failed (write_error 404 "invalid_request_error" "model_not_available")
reply_of stopped_running = failed (write_error 404 "invalid_request_error" "model_not_available")
reply_of (warming_up t) =
    failed (record (write_error 503 "server_error" "model_warming_up") { retry_after = some 5 })
reply_of bad_gateway = failed (write_error 502 "server_error" "api_error")
reply_of (passed_through t) = relayed t

-- RequireAuth where there is no key or a wrong one.
unfoldable pub invalid_key : ApiError
invalid_key = write_error 401 "invalid_request_error" "invalid_api_key"

-- NotFound.
unfoldable pub not_found : ApiError
not_found = write_error 404 "invalid_request_error" "not_found"

-- Disabled.
unfoldable pub disabled : ApiError
disabled = write_error 404 "invalid_request_error" "proxy_disabled"

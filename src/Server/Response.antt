-- ===== src/Server/Response.antt =====
-- internal/server/response.go: what the handlers answer. The text of an error is left out.
use kubernetes_agent.Base.{ℕ, String, Bool, true, false}

-- `view` is writeJSON of a body, `no_content` a 204, `failure` writeError with its status, code and
-- whether the client may retry
pub data Reply {ℓ} (View : Type ℓ) : Type ℓ where
  view : ℕ → View → Reply View
  no_content : Reply View
  failure : ℕ → String → Bool → Reply View

abbrev pub is_failure {ℓ} : {View : Type ℓ} → Reply View → Bool
is_failure (view status v) = false
is_failure no_content = false
is_failure (failure status code retry) = true

-- what decodeJSON answers to a body that it cannot read
abbrev pub invalid_json {ℓ} : {View : Type ℓ} → Reply View
invalid_json = failure 400 "invalid_json" false

abbrev pub internal {ℓ} : {View : Type ℓ} → Reply View
internal = failure 500 "internal" true

abbrev pub invalid {ℓ} : {View : Type ℓ} → Reply View
invalid = failure 400 "validation_error" false

-- ===== src/Validation.antt =====
-- internal/validation/validation.go and errors.go: checks of user input, and error texts that are
-- safe to show. A JSON body enters as what decoding it gives.
pub mod Messages
pub mod Host
pub mod Blocking
mod Tests
use seawise_client.Prelude.{
  ℕ, Bool, true, false, not, ◌&&◌, ◌||◌, Option, none, some, List, [], ◌∷◌, ◌++◌, ltb, leb, eqb,
  if◌then◌else◌, length, all, any, keep, take, is_empty,
}
use seawise_client.Prelude.{ℤ, pos, negsuc}
use seawise_client.Prelude.Bytes.{
  Bytes, lit, ◌==◌, Unicode, to_lower, trim_space, has_prefix, contains,
}

-- [\x00-\x1f\x7f]
unfoldable pub is_control : ℕ → Bool
is_control c = leb c 31 || eqb c 127

-- [a-zA-Z0-9.\-:\[\]]
unfoldable pub is_host_char : ℕ → Bool
is_host_char c =
    (leb b'a' c && leb c b'z')
    || (leb b'A' c && leb c b'Z')
    || (leb b'0' c && leb c b'9')
    || eqb c b'.'
    || eqb c b'-'
    || eqb c b':'
    || eqb c b'['
    || eqb c b']'

unfoldable pub is_valid_host : Bytes → Bool
unfolding is_control is_host_char
is_valid_host host =
    if is_empty host
    then false
    else if ltb 255 (length host)
    then false
    else if any is_control host
    then false
    else if not (all is_host_char host)
    then false
    else true

unfoldable pub is_valid_port : ℤ → Bool
is_valid_port (pos port) = leb 1 port && leb port 65535
is_valid_port (negsuc n) = false

module _ (u : Unicode) where
  unfoldable pub is_valid_service_name : Bytes → Bool
  is_valid_service_name name =
      let trimmed = trim_space u name in
      if is_empty trimmed then false else if ltb 100 (length trimmed) then false else true

unfoldable pub sanitize_log_value : Bytes → Bytes
unfolding is_control
sanitize_log_value s = keep (λ c. not (is_control c)) s

unfoldable pub shorten : Bytes → Bytes
unfolding lit
shorten msg = if ltb 200 (length msg) then take 200 msg ++ lit "..." else msg

module _ (u : Unicode) where
  unfoldable pub sanitize_message : Bytes → Bytes
  unfolding shorten sanitize_log_value
  sanitize_message msg = trim_space u (sanitize_log_value (shorten msg))

unfoldable pub status_text : ℕ → Bytes
unfolding lit
status_text code =
    if eqb code 400
    then lit "Invalid request"
    else if eqb code 401
    then lit "Authentication required"
    else if eqb code 403
    then lit "Access denied"
    else if eqb code 404
    then lit "Not found"
    else if eqb code 409
    then lit "Conflict"
    else if eqb code 429
    then lit "Too many requests"
    else if eqb code 500 || eqb code 502 || eqb code 503 || eqb code 504
    then lit "Server error"
    else lit "Request failed"

-- What decoding an error body gives; absent texts are empty.
pub record ErrorBody : Type 0 where
  pub error_text : Bytes
  pub message : Bytes

module _ (u : Unicode) where
  from_body : ErrorBody → ℕ → Bytes
  from_body body code =
      if not (is_empty body.error_text)
      then sanitize_message u body.error_text
      else if not (is_empty body.message)
      then sanitize_message u body.message
      else status_text code

  unfoldable pub parse_api_error : Option ErrorBody → ℕ → Bytes
  unfolding from_body
  parse_api_error none code = status_text code
  parse_api_error (some body) code = from_body body code

unfoldable pub sensitive_patterns : List Bytes
unfolding lit
sensitive_patterns =
    lit ".go:"
    ∷ lit "runtime/"
    ∷ lit "goroutine"
    ∷ lit "panic:"
    ∷ lit "/home/"
    ∷ lit "/app/"
    ∷ lit "sql:"
    ∷ lit "pq:"
    ∷ lit "connection refused"
    ∷ lit "no such host"
    ∷ lit "context deadline exceeded"
    ∷ []

module _ (u : Unicode) where
  unfoldable pub shows_pattern : Bytes → Bool
  shows_pattern msg =
      any (λ pattern_. contains (to_lower u msg) (to_lower u pattern_)) sensitive_patterns

  -- `err` is the error's text, and `none` for nil. The two JSON marks are {" and {\".
  unfoldable pub sanitize_error_for_ui : Option Bytes → Bytes → Bytes
  unfolding shows_pattern
  sanitize_error_for_ui none fallback = fallback
  sanitize_error_for_ui (some msg) fallback =
      if contains msg (b'{' ∷ 34 ∷ []) || contains msg (b'{' ∷ 92 ∷ 34 ∷ [])
      then fallback
      else if shows_pattern msg
      then fallback
      else if ltb 200 (length msg)
      then fallback
      else if has_prefix msg (lit "blocked:")
      then msg
      else if not (contains msg (lit "(status")) && not (contains msg (lit "respBody"))
      then msg
      else fallback

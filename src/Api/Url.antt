-- ===== src/Api/Url.antt =====
-- ValidateBaseURL, New and isValidUUID of internal/api/client.go.
use seawise_client.Prelude.{
  ℕ, ◌+◌, Bool, true, not, ◌&&◌, ◌||◌, Option, none, some, List, [], ◌∷◌, leb, eqb, if◌then◌else◌,
  length, any, is_empty,
}
use seawise_client.Prelude.Bytes.{Bytes, lit, ◌==◌, has_prefix}
use seawise_client.Api.{ApiClient, ApiError, url_required, https_required, Result, ok, err}

unfoldable pub local_prefixes : List Bytes
unfolding lit
local_prefixes =
    lit "http://localhost:"
    ∷ lit "http://localhost/"
    ∷ lit "http://127.0.0.1:"
    ∷ lit "http://127.0.0.1/"
    ∷ lit "http://[::1]:"
    ∷ lit "http://[::1]/"
    ∷ lit "http://host.docker.internal:"
    ∷ []

-- `none` is no error.
unfoldable pub validate_base_url : Bytes → Option ApiError
unfolding local_prefixes
validate_base_url base_url =
    if is_empty base_url
    then some url_required
    else if any (has_prefix base_url) local_prefixes
    then none
    else if base_url == lit "http://localhost"
        || base_url == lit "http://127.0.0.1"
        || base_url == lit "http://[::1]"
    then none
    else if not (has_prefix base_url (lit "https://"))
    then some (https_required base_url)
    else none

unfoldable pub new_client : Bytes → Result ApiClient
unfolding validate_base_url
new_client base_url = elim (validate_base_url base_url) [
  | some e ↦ err e
  | none ↦ ok (record { base_url = base_url; frp_token = [] })
]

-- The test of the character at index i. A byte of a character beyond ASCII fails it, as the
-- character does.
unfoldable pub is_uuid_char : ℕ → ℕ → Bool
is_uuid_char i c =
    if eqb i 8 || eqb i 13 || eqb i 18 || eqb i 23
    then eqb c b'-'
    else leb b'0' c && leb c b'9' || (leb b'a' c && leb c b'f') || (leb b'A' c && leb c b'F')

unfoldable pub all_uuid_chars : ℕ → Bytes → Bool
unfolding is_uuid_char
all_uuid_chars i [] = true
all_uuid_chars i (c ∷ s) = is_uuid_char i c && all_uuid_chars (i + 1) s

unfoldable pub is_valid_uuid : Bytes → Bool
unfolding all_uuid_chars
is_valid_uuid s = eqb (length s) 36 && all_uuid_chars 0 s

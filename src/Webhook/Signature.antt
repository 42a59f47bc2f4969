-- ===== src/Webhook/Signature.antt =====
-- internal/api/v1/events.go, `ValidateMessage` and `ValidateEvent`: the digest of an event.
use Prim.Native.String.{slice}
use gitstafette.Common.{
  ◌/◌, ◌%◌, ◌≡◌, ◌↔◌, ◌≢◌, refl, map, String, Bool, true, not, Option, none, some, List, [], ◌∷◌,
  ◌==◌, eq_iff, arith, ◌+◌, ◌<>◌, if◌then◌else◌,
}
use gitstafette.Event.{Bytes, WebhookEvent, Header}
use gitstafette.Cache.Ingest.{GoError}

-- HMAC-SHA256 of a message under a token, `hmac.New(sha256.New, []byte(token))` of Go's library.
abbrev pub Mac : Type 0
Mac = String → Bytes → Bytes

abbrev pub hex_table : String
hex_table = "0123456789abcdef"

-- `hex.EncodeToString`: two digits of the table for each byte.
unfoldable pub encode_to_string : Bytes → String
encode_to_string [] = ""
encode_to_string (b ∷ bs) =
    slice hex_table (b / 16) (b / 16 + 1)
    <> slice hex_table (b % 16) (b % 16 + 1)
    <> encode_to_string bs

unfoldable pub computed_sha : Mac → String → Bytes → String
unfolding encode_to_string
computed_sha mac token payload = "sha256=" <> encode_to_string (mac token payload)

-- The `error`, nil if the digest is the right one. (`Write` of a hash never fails.)
unfoldable pub validate_message : Mac → String → String → Bytes → GoError
validate_message mac token given_sha payload =
    if given_sha == ""
    then some "no sha checksum provided"
    else if not (computed_sha mac token payload == given_sha)
    then some "sha checksums did not match"
    else none

abbrev pub signature_header : String
signature_header = "X-Hub-Signature-256"

-- The loop of `ValidateEvent`: the last signature header counts. A nil header panics.
unfoldable pub find_digest : List (Option Header) → String → Option String
find_digest [] digest = some digest
find_digest (none ∷ rest) digest = none
find_digest (some header ∷ rest) digest =
    find_digest rest (if header.name == signature_header then header.values else digest)

abbrev pub judge : Mac → String → Bytes → Option String → Option (Bool × GoError)
judge mac hmac body none = none
judge mac hmac body (some digest) =
    if digest == "" then some (true, none) else some (true, validate_message mac hmac digest body)

-- The result, and the error that is logged with it.
unfoldable pub validate_event : Mac → String → WebhookEvent → Option (Bool × GoError)
unfolding find_digest
validate_event mac hmac event = judge mac hmac event.body (find_digest event.headers "")

-- `ValidateMessage` accepts a digest exactly if it is there and is the one computed.
pub validate_message_iff :
    (mac : Mac) (token given : String) (payload : Bytes)
    → (validate_message mac token given payload ≡ none)
      ↔ ((given ≢ "") × (given ≡ computed_sha mac token payload))
unfolding validate_message
validate_message_iff mac token given payload =
    ground (arith, eq_iff given "", eq_iff (computed_sha mac token payload) given)

-- The value of the last signature header.
abbrev pub last_digest : List Header → String → String
last_digest [] digest = digest
last_digest (h ∷ hs) digest =
    last_digest hs (if h.name == signature_header then h.values else digest)

find_digest_lem :
    (hs : List Header) (digest : String)
    → find_digest (map some hs) digest ≡ some (last_digest hs digest)
unfolding find_digest
find_digest_lem [] digest = refl
find_digest_lem (h ∷ hs) digest = find_digest_lem hs _

-- `ValidateEvent` never says no: an event of which no header is nil is reported as valid, whatever
-- its digest. What `ValidateMessage` finds about a digest that is there is only logged.
pub validate_event_always :
    (mac : Mac) (hmac : String) (event : WebhookEvent) (hs : List Header)
    → event.headers ≡ map some hs
    → validate_event mac hmac event
      ≡ some (
        true,
        if last_digest hs "" == ""
            then none
            else validate_message mac hmac (last_digest hs "") event.body,
      )
unfolding validate_event
validate_event_always mac hmac event hs e = rw (e, find_digest_lem) (ground arith)

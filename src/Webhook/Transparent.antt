-- ===== src/Webhook/Transparent.antt =====
-- An event from GitHub's request to the target of a client's relay.
use gitstafette.Common.{
  ℕ, ◌≡◌, ◌∙◌, refl, String, false, some, [], ◌∷◌, ◌==◌, eq_iff, arith, put, slice_at-put, eq_refl,
  member, Distinct, if◌then◌else◌,
}
use gitstafette.Event.{WebhookEventInternal, external_to_internal_event, internal_to_external_event}
use gitstafette.Event.RoundTrip.{Wire, filled}
use gitstafette.Cache.Ingest.{HttpHeader, first_or_empty, get_header}
use gitstafette.Relay.{http_relay, http_post, set_headers, event_headers_to_http_headers}
use gitstafette.Webhook.{GitstafetteContext}
use gitstafette.Webhook.Post.{incoming, first_values}
use gitstafette.Webhook.Delivered.{keys, delivered_lem}

get_header-put :
    (k q v : String) (headers : HttpHeader)
    → get_header (put k (v ∷ []) headers) q ≡ (if k == q then v else get_header headers q)
unfolding get_header
get_header-put k q v headers = ground (arith, slice_at-put k q (v ∷ []) headers)

get_header-absent :
    (q : String) (hs : HttpHeader) → member q (keys hs) ≡ false → get_header hs q ≡ ""
unfolding get_header
get_header-absent q [] m = refl
get_header-absent q ((k, vs) ∷ hs) m = ground (arith, m, get_header-absent q hs, eq_iff k q)

-- A header that the filter drops reads as empty.
get_header-set :
    (q : String) (hs found : HttpHeader)
    → q == "" ≡ false
    → Distinct (keys hs)
    → get_header (set_headers (filled (first_values hs)) found) q
      ≡ (if get_header hs q == "" then get_header found q else get_header hs q)
unfolding set_headers get_header
get_header-set q [] found named d = refl
get_header-set q ((k, vs) ∷ hs) found named d = ground (
  arith,
  named,
  get_header-set q hs found named d.1,
  get_header-set q hs (put k (first_or_empty vs ∷ []) found) named d.1,
  get_header-put k q (first_or_empty vs) found,
  get_header-absent q hs,
  eq_iff k q,
  eq_iff (get_header hs q) "",
  eq_iff (first_or_empty vs) "",
  eq_refl "",
)

empty_or_same : (v : String) → (if v == "" then "" else v) ≡ v
empty_or_same v = ground (arith, eq_iff v "")

-- A request whose header keys are distinct, cached by the server, sent over gRPC and read by a
-- client, leaves the client's relay as a POST to its endpoint with the body of the request, in which
-- each header that has a name reads as it did in the request.
pub transparent_lem :
    (w : Wire) (now later : ℕ) (ctx : GitstafetteContext) (endpoint k : String)
    → Distinct (keys ctx.headers)
    → k == "" ≡ false
    → (e : WebhookEventInternal) × (headers : HttpHeader) × (external_to_internal_event later
          (w.transmit (internal_to_external_event (incoming now ctx)))
        ≡ some e)
      × (http_relay e endpoint ≡ http_post endpoint headers ctx.message_payload)
      × (get_header headers k ≡ get_header ctx.headers k)
unfolding http_relay event_headers_to_http_headers get_header
transparent_lem w now later ctx endpoint k distinct named =
    let kept = filled (first_values ctx.headers) in
    (
      _,
      set_headers kept [],
      delivered_lem w now later ctx distinct,
      refl,
      get_header-set k ctx.headers [] named distinct ∙ empty_or_same (get_header ctx.headers k),
    )

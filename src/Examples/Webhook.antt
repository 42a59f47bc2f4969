-- ===== src/Examples/Webhook.antt =====
-- Tests of the webhook's handler and of the way of an event.
use gitstafette.Webhook.Panics.{post_panics_iff}
use gitstafette.Webhook.Post.{has_values}
use gitstafette.Webhook.{target_type_header}
use gitstafette.Common.{◌↔◌, ◌⊎◌, inl, slice_at}
use gitstafette.Common.{
  ℕ, ◌≡◌, ◌≢◌, ◌⊎◌, ◌↔◌, refl, sym, ap, ◌∙◌, String, true, false, none, some, List, [], ◌∷◌, ◌++◌,
  ◌==◌, map, member, slice_at, arith, if◌then◌else◌,
}
use gitstafette.Event.{WebhookEvent, Header, external_to_internal_event, internal_to_external_event}
use gitstafette.Event.RoundTrip.{Wire, or_empty, external_to_internal_panics}
use gitstafette.Cache.Heap.{alloc}
use gitstafette.Cache.InMemory.{InMemoryStore, new_in_memory_store, store}
use gitstafette.Cache.Ingest.{first_or_empty, get_header, insert, internal_event}
use gitstafette.Cache.Spec.{view, event_ids}
use gitstafette.Cache.Watcher.{repository_is_watched}
use gitstafette.Webhook.Signature.{
  computed_sha, validate_message, signature_header, last_digest, validate_event,
  validate_event_always,
}
use gitstafette.Webhook.{
  GitstafetteContext, Reply, answers, panics, target_id_header, target_type_header,
  handle_github_post,
}
use gitstafette.Webhook.Post.{incoming, target, post_created, post_not_created, post_forged}
use gitstafette.Webhook.Again.{post_again}
use gitstafette.Relay.{http_relay, http_post}
use gitstafette.Cache.Ingest.{HttpHeader}
use gitstafette.Event.{WebhookEventInternal}
use gitstafette.Webhook.Transparent.{transparent_lem}
use gitstafette.Examples.{
  event_named, repo, one_event, one_event-IsWellFormed, watcher, toy_mac, ping,
}

pings :
    (handle_github_post toy_mac 9 watcher one_event ping).0 ≡ answers 201 "Repository event cached"
unfolding handle_github_post validate_message computed_sha repository_is_watched internal_event
    insert store new_in_memory_store alloc
pings = refl

post_created_example :
    ((ping.webhook_hmac ≡ "")
      ⊎ (first_or_empty (slice_at signature_header ping.headers)
          ≡ computed_sha toy_mac ping.webhook_hmac ping.message_payload))
    × (repository_is_watched watcher (target ping) ≡ true)
    × (member (incoming 9 ping).id (event_ids (view one_event (target ping))) ≡ false)
    × (view (handle_github_post toy_mac 9 watcher one_event ping).1 ≡ (λ r.
        if target ping == r then view one_event r ++ incoming 9 ping ∷ [] else view one_event r))
post_created_example =
    post_created toy_mac 9 watcher one_event ping one_event-IsWellFormed "Repository event cached"
      pings

-- A request whose digest is not the right one.
abbrev forged : GitstafetteContext
forged = record {
  headers =
      (target_id_header, repo ∷ [])
      ∷ (target_type_header, "repository" ∷ [])
      ∷ ("X-Hub-Signature-256", "sha256=00" ∷ [])
      ∷ [];
  message_payload = 123 ∷ 125 ∷ [];
  webhook_hmac = "secret";
}

abbrev mismatch : String
mismatch = "Ran into an error validating the message digest: sha checksums did not match\n"

forged_reply : (handle_github_post toy_mac 9 watcher one_event forged).0 ≡ answers 400 mismatch
unfolding handle_github_post validate_message computed_sha
forged_reply = refl

abbrev status_of : Reply → ℕ
status_of (answers status text) = status
status_of panics = 500

other_answer : (x : Reply) (t text : String) → x ≡ answers 400 t → x ≢ answers 201 text
other_answer x t text e h = let same : 400 ≡ 201 = ap status_of (sym e ∙ h) in omega (arith, same)

refused_forged :
    (text : String) → (handle_github_post toy_mac 9 watcher one_event forged).0 ≢ answers 201 text
refused_forged text = other_answer _ mismatch text forged_reply

post_not_created_example :
    view (handle_github_post toy_mac 9 watcher one_event forged).1 ≡ view one_event
post_not_created_example =
    post_not_created toy_mac 9 watcher one_event forged one_event-IsWellFormed refused_forged

other_digest :
    first_or_empty (slice_at signature_header forged.headers)
    ≢ computed_sha toy_mac forged.webhook_hmac forged.message_payload
unfolding computed_sha
other_digest h = cc

has_target : slice_at target_id_header forged.headers ≢ []
has_target h = cc

has_token : forged.webhook_hmac ≢ ""
has_token h = cc

post_forged_example :
    (text : String) × (handle_github_post toy_mac 9 watcher one_event forged
      ≡ (answers 400 text, one_event))
post_forged_example =
    post_forged toy_mac 9 watcher one_event forged {ts = []} has_target refl has_token other_digest

-- A request that names a target and no type.
abbrev untyped : GitstafetteContext
untyped = record {
  headers = (target_id_header, repo ∷ []) ∷ [];
  message_payload = [];
  webhook_hmac = "";
}

untyped_target : slice_at target_id_header untyped.headers ≢ []
untyped_target h = cc

post_panics_iff_example : ((handle_github_post toy_mac 9 watcher one_event untyped).0 ≡ panics) ↔ (
    ((slice_at target_id_header untyped.headers ≢ [])
      × (slice_at target_type_header untyped.headers ≡ []))
    ⊎ ((slice_at target_id_header untyped.headers ≢ [])
        × ((ts : List String) × (slice_at target_type_header untyped.headers ≡ "repository" ∷ ts))
        × ((untyped.webhook_hmac ≡ "")
            ⊎ ((first_or_empty (slice_at signature_header untyped.headers) ≢ "")
                × (first_or_empty (slice_at signature_header untyped.headers)
                    ≡ computed_sha toy_mac untyped.webhook_hmac untyped.message_payload)))
        × (repository_is_watched watcher (target untyped) ≡ true)
        × (has_values untyped.headers ≡ false)))
post_panics_iff_example = post_panics_iff toy_mac 9 watcher one_event untyped

index_out_of_range : (handle_github_post toy_mac 9 watcher one_event untyped).0 ≡ panics
index_out_of_range =
    (post_panics_iff toy_mac 9 watcher one_event untyped).1 (inl (untyped_target, refl))

abbrev after_ping : InMemoryStore
after_ping = (handle_github_post toy_mac 9 watcher one_event ping).1

post_again_example :
    ((handle_github_post toy_mac 11 watcher after_ping ping).0
      ≡ answers 204 "Repository event accepted but is already cached")
    × (view (handle_github_post toy_mac 11 watcher after_ping ping).1 ≡ view after_ping)
post_again_example =
    post_again toy_mac 9 11 watcher one_event ping one_event-IsWellFormed "Repository event cached"
      pings

abbrev digest : String
digest = "sha256=7b7d"

abbrev signed : List Header
signed =
    record { name = "X-Github-Delivery"; values = "c" }
    ∷ record { name = "X-Hub-Signature-256"; values = "sha256=00" }
    ∷ []

abbrev signed_event : WebhookEvent
signed_event = record { event_id = "c"; body = 123 ∷ 125 ∷ []; headers = map some signed }

validate_event_always_example :
    validate_event toy_mac "secret" signed_event
    ≡ some (
      true,
      if last_digest signed "" == ""
          then none
          else validate_message toy_mac "secret" (last_digest signed "") signed_event.body,
    )
validate_event_always_example = validate_event_always toy_mac "secret" signed_event signed refl

abbrev wire : Wire
wire = record {
  transmit = λ e. record e { headers = map (λ h. some (or_empty h)) e.headers };
  transmit_lem = λ e. refl;
}

external_to_internal_panics_example :
    (external_to_internal_event 20 (internal_to_external_event (event_named "a")) ≡ none)
    ↔ ((event_named "a").headers ≢ [])
external_to_internal_panics_example = external_to_internal_panics 20 (event_named "a")

transparent_lem_example :
    (e : WebhookEventInternal) × (headers : HttpHeader) × (external_to_internal_event 20
        (wire.transmit (internal_to_external_event (incoming 9 ping)))
      ≡ some e)
    × (http_relay e "http://localhost:8080/"
        ≡ http_post "http://localhost:8080/" headers ping.message_payload)
    × (get_header headers "X-Hub-Signature-256" ≡ get_header ping.headers "X-Hub-Signature-256")
transparent_lem_example =
    transparent_lem wire 9 20 ping "http://localhost:8080/" "X-Hub-Signature-256"
      (refl, (refl, (refl, (refl, tt)))) refl

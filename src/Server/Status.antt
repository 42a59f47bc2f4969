-- ===== src/Server/Status.antt =====
-- `WebhookEventStatus` and `WebhookEventStatuses`, which tell of fixed events.
use gitstafette.Common.{
  ℕ, ◌+◌, ◌*◌, ◌≡◌, ◌⊎◌, inl, refl, String, Bool, true, false, none, some, List, [], ◌∷◌, arith,
  ltb, if◌then◌else◌,
}
use gitstafette.Cache.Ingest.{GoError}
use gitstafette.Server.{second}

pub record WebhookEventStatusResponse : Type 0 where
  pub server_id : String
  pub count : ℕ
  pub repository_id : String
  pub status : String

unfoldable pub webhook_event_status : String → WebhookEventStatusResponse
webhook_event_status repository_id = record {
  server_id = "Gitstafette";
  count = 0;
  repository_id = repository_id;
  status = "OK";
}

abbrev pub status01 : WebhookEventStatusResponse
status01 = record { server_id = "Gitstafette"; count = 1; repository_id = "12345"; status = "OK" }

abbrev pub status02 : WebhookEventStatusResponse
status02 = record { server_id = "Gitstafette"; count = 2; repository_id = "7891"; status = "OK" }

abbrev pub status03 : WebhookEventStatusResponse
status03 = record {
  server_id = "Gitstafette";
  count = 3;
  repository_id = "7892";
  status = "FAILED";
}

abbrev pub statuses : List WebhookEventStatusResponse
statuses = status01 ∷ status02 ∷ status03 ∷ []

-- What wakes the `select`: the interval, with what `srv.Send` returns, or the end of a context.
pub data StatusWake : Type 0 where
  interval_over : GoError → StatusWake
  context_done : StatusWake

-- What was sent, whether the loop goes on, and the error that is returned if it does not.
pub record StatusStream : Type 0 where
  pub sent_statuses : List WebhookEventStatusResponse
  pub goes_on : Bool
  pub returned_error : GoError

-- The case of the `select` in which the interval is over, with the events from `currentEvent` on.
-- With none left it breaks, and so it does behind a `Send` that succeeds.
unfoldable pub send_status : List WebhookEventStatusResponse → GoError → StatusStream
send_status [] send_error = record { sent_statuses = []; goes_on = false; returned_error = none }
send_status (e ∷ es) none = record {
  sent_statuses = e ∷ [];
  goes_on = false;
  returned_error = none;
}
send_status (e ∷ es) (some error) = record {
  sent_statuses = [];
  goes_on = false;
  returned_error = some error;
}

-- A round of the loop. None of its cases goes on, so that the loop has no second round; without a
-- round it still waits.
unfoldable pub webhook_event_statuses : ℕ → List (ℕ × StatusWake) → StatusStream
unfolding send_status
webhook_event_statuses started [] = record {
  sent_statuses = [];
  goes_on = true;
  returned_error = none;
}
webhook_event_statuses started ((now, context_done) ∷ rest) = record {
  sent_statuses = [];
  goes_on = false;
  returned_error = none;
}
webhook_event_statuses started ((now, interval_over send_error) ∷ rest) =
    if ltb now (started + 30 * second)
    then send_status statuses send_error
    else record { sent_statuses = []; goes_on = false; returned_error = none }

-- Of the three statuses at most the first is ever sent.
pub webhook_event_statuses-sent :
    (started : ℕ) (schedule : List (ℕ × StatusWake))
    → ((webhook_event_statuses started schedule).sent_statuses ≡ [])
      ⊎ ((webhook_event_statuses started schedule).sent_statuses ≡ status01 ∷ [])
unfolding webhook_event_statuses
webhook_event_statuses-sent started [] = inl refl
webhook_event_statuses-sent started ((now, context_done) ∷ rest) = inl refl
webhook_event_statuses-sent started ((now, interval_over none) ∷ rest) = ground arith
webhook_event_statuses-sent started ((now, interval_over (some e)) ∷ rest) = ground arith

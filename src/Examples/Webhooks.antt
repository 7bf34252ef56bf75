-- ===== src/Examples/Webhooks.antt =====
-- Runs of the webhooks' model at concrete inputs.
use almanaut.Base.{
  All, List, [], arith, bool_eq, length, list_eq, nat_eq, none, pair_eq, refl, some, string_eq,
  true, ◌++◌, ◌∷◌, ◌≡◌, ◌≢◌, ◌≤◌,
}
use almanaut.Base.Text.{is_space, text_of, trim_left, trim_space}
use almanaut.Base.Assoc.{delete, insert, lookup}
use almanaut.Resource.{Event}
use almanaut.Webhooks.{
  Webhook, WebhookRepo, create, delete_row, get, split_commas, trimmed_parts, update, wh_join,
  wh_split,
}
use almanaut.Webhooks.Filters.{wh_split-wh_join}
use almanaut.Webhooks.Admin.{
  Request, allowed_values, create_webhook, creation, delete_webhook, deletion, edit, filter_allowed,
  missing, parse_webhook_form, serve, serve_all, toggle, toggle_webhook, update_webhook, url_scheme,
}
use almanaut.Webhooks.Registry.{Registry, Shows, obey_all, serve_all-Shows}
use almanaut.Webhooks.Queue.{
  Options, Queue, Reach, Runs, Step, Wire, after_post, attempted, delivery_for, dispatch_one,
  dispatched, enqueue, expand_endpoint, expand_next, expanded, here, new_queue, next, start, step,
  take_event, take_job, with_defaults,
}
use almanaut.Webhooks.Queue.Counts.{IsValid, Reach-IsValid}
use almanaut.Webhooks.Queue.Drains.{wait_returns, weight}
use almanaut.Webhooks.Queue.Owed.{IsOwed}
use almanaut.Webhooks.Queue.Posts.{posts-IsOwed}

abbrev wire : Wire
wire = record { marshal = λ p. some p.delivery_id; hmac_hex = λ secret body. secret ++ body }

-- No option is set but the number of attempts.
abbrev options : Options
options = record { workers = 0; queue_size = 0; max_attempts = 2; base_delay = 0 }

abbrev created_host : Event
created_host = record {
  entity = ("host", 7);
  action = "created";
  actor = text_of "ann";
  timestamp = text_of "2026-01-02T03:04:05Z";
  content = none;
}

abbrev hook : Webhook
hook = record {
  id = 1;
  url = text_of "https://a";
  secret = text_of "s";
  enabled = true;
  entity_types = text_of "host" ∷ [];
  events = [];
  created_at = text_of "2026";
}

abbrev IsSent : Event → Type 0
IsSent e = e ≡ created_host

abbrev IsEnabled : Webhook → Type 0
IsEnabled w = w.enabled ≡ true

abbrev IsListed : List Webhook → Type 0
IsListed endpoints = (length endpoints ≤ 1) × All IsEnabled endpoints

-- The queue with the event expanded to one job.
abbrev expanded_queue : Queue
expanded_queue = record new_queue {
  jobs =
      record {
        url = text_of "https://a";
        body = text_of "id";
        sig = text_of "sha256=sid";
        delivery_id = text_of "id";
        attempt = 1;
      }
      ∷ [];
  outstanding = 1;
}

expanded_queue_reached : Reach (with_defaults options) wire IsListed IsSent expanded_queue
unfolding dispatch_one expand_endpoint delivery_for enqueue with_defaults
expanded_queue_reached =
    step
      (step
        (step (dispatched created_host refl start)
          (take_event created_host (hook ∷ []) refl refl (omega arith, (refl, tt)) refl))
        (expand_next created_host hook (some (text_of "id")) refl refl))
      (expanded created_host refl refl)

-- After a first attempt that the receiver answered with 500.
abbrev failed_queue : Queue
failed_queue = record new_queue {
  delayed =
      (
        2000000000,
        record {
          url = text_of "https://a";
          body = text_of "id";
          sig = text_of "sha256=sid";
          delivery_id = text_of "id";
          attempt = 2;
        },
      )
      ∷ [];
  outstanding = 1;
  posts = expanded_queue.jobs;
}

failed_run : Runs (with_defaults options) wire IsListed expanded_queue 2 failed_queue
unfolding with_defaults after_post
failed_run =
    next (next here (take_job _ refl (omega arith) refl)) (attempted _ [] [] (some 500) refl refl)

failed_queue_reached : Reach (with_defaults options) wire IsListed IsSent failed_queue
unfolding with_defaults after_post
failed_queue_reached =
    step (step expanded_queue_reached (take_job _ refl (omega arith) refl))
      (attempted _ [] [] (some 500) refl refl)

wait_returns_example :
    (2 ≤ weight (with_defaults options) 1 expanded_queue)
    × (failed_queue.outstanding ≢ 0
        → (r : Queue) × Step (with_defaults options) wire IsListed failed_queue r)
wait_returns_example =
    wait_returns options wire IsListed IsSent 1 (λ endpoints h. h.0) (omega arith, tt)
      expanded_queue_reached failed_run

posts-IsOwed_example : All (IsOwed (with_defaults options) wire IsEnabled IsSent) failed_queue.posts
posts-IsOwed_example =
    posts-IsOwed options wire IsListed IsEnabled IsSent (λ endpoints h. h.1) failed_queue_reached

Reach-IsValid_example : IsValid (with_defaults options) failed_queue
Reach-IsValid_example = Reach-IsValid (with_defaults options) IsSent failed_queue_reached

wh_split-wh_join_example :
    wh_split (wh_join (text_of "host" ∷ text_of "vlan" ∷ [])) ≡ text_of "host" ∷ text_of "vlan" ∷ []
unfolding trim_space trim_left is_space
wh_split-wh_join_example = wh_split-wh_join (text_of "host" ∷ text_of "vlan" ∷ []) refl

abbrev no_rows : WebhookRepo
no_rows = record { rows = []; next_id = 1 }

abbrev no_hooks : Registry
no_hooks = record { hooks = λ id. none; next = 1 }

no_rows-Shows : Shows no_rows no_hooks
unfolding get lookup
no_rows-Shows = record { same_hooks = λ id. refl; same_next = refl }

-- An endpoint that is registered, paused, edited with a bad URL, and deleted twice.
abbrev requests : List Request
requests =
    creation (some (text_of "s")) (text_of "2026") (record {
      url = text_of " https://a ";
      entity_types = text_of "host" ∷ text_of "bogus" ∷ text_of "host" ∷ [];
      events = [];
    })
    ∷ toggle 1
    ∷ edit 1 (record { url = text_of "ftp://a"; entity_types = []; events = [] })
    ∷ deletion 1
    ∷ toggle 1
    ∷ []

serve_all-Shows_example :
    Shows (serve_all requests no_rows).0 (obey_all requests no_hooks).0
    × ((serve_all requests no_rows).1 ≡ (obey_all requests no_hooks).1)
serve_all-Shows_example = serve_all-Shows requests no_rows no_hooks no_rows-Shows

-- Only the bad URL and the endpoint that is gone are refused.
requests_answered :
    (serve_all requests no_rows).1 ≡ none ∷ none ∷ some url_scheme ∷ none ∷ some missing ∷ []
unfolding serve_all serve create_webhook toggle_webhook update_webhook delete_webhook
    parse_webhook_form create get update delete_row filter_allowed allowed_values lookup insert
    delete wh_join wh_split split_commas trimmed_parts trim_space trim_left is_space
requests_answered = refl

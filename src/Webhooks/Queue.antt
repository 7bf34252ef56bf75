-- ===== src/Webhooks/Queue.antt =====
-- internal/webhook: the delivery queue. A goroutine's work between two channel operations is one step,
-- and the steps come in any order. Endpoints that are listed, the random ids, the answers of receivers
-- and the moments when timers fire are the environment's choice. The log is left out, but for the
-- requests that were made. JSON and HMAC are those of `Wire`.
pub mod Counts
pub mod Owed
pub mod Posts
pub mod Drains
use almanaut.Base.{
  Bool, List, Option, String, [], bool_eq, false, if◌then◌else◌, leb, length, list_eq, ltb, nat_eq,
  none, pair_eq, some, string_eq, suc, ℕ, ◌%◌, ◌&&◌, ◌*◌, ◌++◌, ◌+◌, ◌-◌, ◌<◌, ◌==◌, ◌^◌, ◌∷◌, ◌≡◌,
}
use almanaut.Base.Text.{Text, text_of}
use almanaut.Resource.{Event}
use almanaut.Webhooks.{Webhook, matches}

-- `Options`, a field at most 0 as 0, without the HTTP client, its timeout and the log.
pub record Options : Type 0 where
  pub workers : ℕ
  pub queue_size : ℕ
  pub max_attempts : ℕ
  -- In nanoseconds.
  pub base_delay : ℕ

-- `deliveryJob`
pub record Job : Type 0 where
  pub url : Text
  pub body : Text
  pub sig : Text
  pub delivery_id : Text
  pub attempt : ℕ

-- `payload`
pub record Payload : Type 0 where
  pub delivery_id : Text
  pub event : String
  pub entity_type : String
  pub id : ℕ
  pub actor : Text
  pub timestamp : Text
  pub content : Option Text

pub record Wire : Type 0 where
  pub marshal : Payload → Option Text
  -- The HMAC of a body under a secret, in hexadecimal digits.
  pub hmac_hex : Text → Text → Text

pub data Expander : Type 0 where
  waiting : Expander
  -- The endpoints that are still to come.
  expanding : Event → List Webhook → Expander

pub record Queue : Type 0 where
  pub events : List Event
  pub expander : Expander
  pub jobs : List Job
  -- The jobs that workers hold, and those that wait for a timer, with its duration.
  pub busy : List Job
  pub delayed : List (ℕ × Job)
  -- The counter of `wg`.
  pub outstanding : ℕ
  -- The requests that were made, the latest first.
  pub posts : List Job

abbrev pub or_default : ℕ → ℕ → ℕ
or_default n default = if n == 0 then default else n

-- The options that `NewQueue` goes on with.
unfoldable pub with_defaults : Options → Options
with_defaults o = record {
  workers = or_default o.workers 4;
  queue_size = or_default o.queue_size 256;
  max_attempts = or_default o.max_attempts 5;
  base_delay = or_default o.base_delay (2 * 10 ^ 9);
}

abbrev pub new_queue : Queue
new_queue = record {
  events = [];
  expander = waiting;
  jobs = [];
  busy = [];
  delayed = [];
  outstanding = 0;
  posts = [];
}

-- `wg.Add(1)` and `wg.Done()`
abbrev pub add_one : Queue → Queue
add_one q = record q { outstanding = q.outstanding + 1 }

abbrev pub done : Queue → Queue
done q = record q { outstanding = q.outstanding - 1 }

-- `Dispatch` of one event.
unfoldable pub dispatch_one : Options → Event → Queue → Queue
dispatch_one o e queue =
    let q = add_one queue in
    if ltb (length q.events) o.queue_size then record q { events = q.events ++ e ∷ [] } else done q

unfoldable pub enqueue : Options → Job → Queue → Queue
enqueue o j q =
    if ltb (length q.jobs) o.queue_size then record q { jobs = q.jobs ++ j ∷ [] } else done q

abbrev pub signed : Wire → Text → Text → Text × Text
signed wire secret body = (body, text_of "sha256=" ++ wire.hmac_hex secret body)

abbrev pub sign_marshalled : Wire → Text → Option Text → Option (Text × Text)
sign_marshalled wire secret none = none
sign_marshalled wire secret (some body) = some (signed wire secret body)

abbrev pub payload_of : Event → Text → Payload
payload_of e delivery_id = record {
  delivery_id = delivery_id;
  event = e.action;
  entity_type = e.entity.0;
  id = e.entity.1;
  actor = e.actor;
  timestamp = e.timestamp;
  content = e.content;
}

-- The body and its signature; `none` where the event cannot be marshalled.
abbrev pub build_body : Wire → Event → Text → Text → Option (Text × Text)
build_body wire e delivery_id secret =
    sign_marshalled wire secret (wire.marshal (payload_of e delivery_id))

abbrev pub first_attempt : Webhook → Text → Option (Text × Text) → Option Job
first_attempt ep delivery_id none = none
first_attempt ep delivery_id (some (body, sig)) =
    some (record { url = ep.url; body = body; sig = sig; delivery_id = delivery_id; attempt = 1 })

abbrev pub build_job : Wire → Event → Webhook → Option Text → Option Job
build_job wire e ep none = none
build_job wire e ep (some delivery_id) =
    first_attempt ep delivery_id (build_body wire e delivery_id ep.secret)

-- The job that `expand` makes for an endpoint, with the id that was drawn for it.
unfoldable pub delivery_for : Wire → Event → Webhook → Option Text → Option Job
delivery_for wire e ep drawn =
    if matches ep (text_of e.entity.0) (text_of e.action) then build_job wire e ep drawn else none

abbrev pub add_job : Options → Option Job → Queue → Queue
add_job o none q = q
add_job o (some j) q = enqueue o j (add_one q)

-- One round of the loop of `expand`.
unfoldable pub expand_endpoint : Options → Wire → Event → Webhook → Option Text → Queue → Queue
expand_endpoint o wire e ep drawn q = add_job o (delivery_for wire e ep drawn) q

-- `post`: the status of an answer, and `none` for an error or a panic.
abbrev pub is_delivered : Option ℕ → Bool
is_delivered none = false
is_delivered (some status) = leb 200 status && ltb status 300

-- The product of two `int64`, in 64 bits.
abbrev pub backoff : Options → Job → ℕ
backoff o j = o.base_delay * 2 ^ (j.attempt - 1) % 2 ^ 64

-- What a worker does once it has the answer.
unfoldable pub after_post : Options → Job → Option ℕ → Queue → Queue
after_post o j answer q =
    if is_delivered answer
    then done q
    else if leb o.max_attempts j.attempt
    then done q
    else record q { delayed = (backoff o j, record j { attempt = j.attempt + 1 }) ∷ q.delayed }

module _ (o : Options) (wire : Wire) (IsListed : List Webhook → Type 0) where
  -- A step of the queue's own goroutines and timers. `IsListed` is what `ListEnabled` may answer,
  -- with no endpoints where it fails.
  pub data Step (q q' : Queue) : Type 0 where
    take_event :
        (e : Event) {rest : List Event} (endpoints : List Webhook)
        → q.expander ≡ waiting
        → q.events ≡ e ∷ rest
        → IsListed endpoints
        → q' ≡ record q { events = rest; expander = expanding e endpoints }
        → Step q q'
    expand_next :
        (e : Event) (ep : Webhook) {endpoints : List Webhook} (drawn : Option Text)
        → q.expander ≡ expanding e (ep ∷ endpoints)
        → q' ≡ expand_endpoint o wire e ep drawn (record q { expander = expanding e endpoints })
        → Step q q'
    expanded :
        (e : Event)
        → q.expander ≡ expanding e []
        → q' ≡ done (record q { expander = waiting })
        → Step q q'
    -- A panic in `expand`.
    abandoned :
        (e : Event) (endpoints : List Webhook)
        → q.expander ≡ expanding e endpoints
        → q' ≡ done (record q { expander = waiting })
        → Step q q'
    take_job :
        (j : Job) {rest : List Job}
        → q.jobs ≡ j ∷ rest
        → length q.busy < o.workers
        → q' ≡ record q { jobs = rest; busy = j ∷ q.busy }
        → Step q q'
    attempted :
        (j : Job) (before after : List Job) (answer : Option ℕ)
        → q.busy ≡ before ++ j ∷ after
        → q' ≡ after_post o j answer (record q { busy = before ++ after; posts = j ∷ q.posts })
        → Step q q'
    timer_fires :
        (delay : ℕ) (j : Job) (before after : List (ℕ × Job))
        → q.delayed ≡ before ++ (delay, j) ∷ after
        → q' ≡ enqueue o j (record q { delayed = before ++ after })
        → Step q q'

  -- Any number of such steps.
  pub data Runs (q : Queue) : ℕ → Queue → Type 0 where
    here : Runs q 0 q
    next : {n : ℕ} {p r : Queue} → Runs q n p → Step p r → Runs q (suc n) r

  -- The states of a queue while events are dispatched to it.
  pub data Reach (IsSent : Event → Type 0) : Queue → Type 0 where
    start : Reach IsSent new_queue
    step : {q q' : Queue} → Reach IsSent q → Step q q' → Reach IsSent q'
    dispatched :
        {q : Queue} (e : Event) → IsSent e → Reach IsSent q → Reach IsSent (dispatch_one o e q)

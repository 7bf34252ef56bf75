-- ===== src/Webhooks/Queue/Owed.antt =====
-- What a delivery job of internal/webhook/dispatcher.go is for.
use almanaut.Base.{
  All, Bool-cases, Option, arith, bool_eq, false, inl, inr, leb, list_eq, nat_eq, none, pair_eq,
  refl, some, string_eq, true, ◌++◌, ◌+◌, ◌≡◌, ◌≤◌,
}
use almanaut.Base.Text.{Text, text_of}
use almanaut.Resource.{Event}
use almanaut.Webhooks.{Webhook, matches}
use almanaut.Webhooks.Queue.{
  Expander, Job, Options, Wire, build_job, delivery_for, expanding, first_attempt, payload_of,
  sign_marshalled, waiting,
}

module _ (o : Options) (wire : Wire) (IsEndpoint : Webhook → Type 0) (IsSent : Event → Type 0) where
  -- What a job is for: an event that was dispatched and an endpoint that was listed and wants it.
  pub record IsOwed (j : Job) : Type 0 where
    pub event : Event
    pub sent : IsSent event
    pub endpoint : Webhook
    pub listed : IsEndpoint endpoint
    pub wanted : matches endpoint (text_of event.entity.0) (text_of event.action) ≡ true
    pub addressed : j.url ≡ endpoint.url
    pub written : wire.marshal (payload_of event j.delivery_id) ≡ some j.body
    pub is_signed : j.sig ≡ text_of "sha256=" ++ wire.hmac_hex endpoint.secret j.body
    pub started : 1 ≤ j.attempt
    pub bounded : j.attempt ≤ o.max_attempts

  abbrev pub IsOwedOption : Option Job → Type 0
  IsOwedOption none = Unit
  IsOwedOption (some j) = IsOwed j

  abbrev pub IsExpanding : Expander → Type 0
  IsExpanding waiting = Unit
  IsExpanding (expanding e endpoints) = IsSent e × All IsEndpoint endpoints

  built-IsOwed :
      (e : Event) (ep : Webhook) (delivery_id : Text) (marshalled : Option Text)
      → wire.marshal (payload_of e delivery_id) ≡ marshalled
      → 1 ≤ o.max_attempts
      → IsSent e
      → IsEndpoint ep
      → matches ep (text_of e.entity.0) (text_of e.action) ≡ true
      → IsOwedOption (first_attempt ep delivery_id (sign_marshalled wire ep.secret marshalled))
  built-IsOwed e ep delivery_id none same tries sent listed wanted = tt
  built-IsOwed e ep delivery_id (some body) same tries sent listed wanted = record {
    event = e;
    sent = sent;
    endpoint = ep;
    listed = listed;
    wanted = wanted;
    addressed = refl;
    written = same;
    is_signed = refl;
    started = omega arith;
    bounded = tries;
  }

  build_job-IsOwed :
      (e : Event) (ep : Webhook) (drawn : Option Text)
      → 1 ≤ o.max_attempts
      → IsSent e
      → IsEndpoint ep
      → matches ep (text_of e.entity.0) (text_of e.action) ≡ true
      → IsOwedOption (build_job wire e ep drawn)
  build_job-IsOwed e ep none tries sent listed wanted = tt
  build_job-IsOwed e ep (some delivery_id) tries sent listed wanted =
      built-IsOwed e ep delivery_id _ refl tries sent listed wanted

  pub delivery_for-IsOwed :
      (e : Event) (ep : Webhook) (drawn : Option Text)
      → 1 ≤ o.max_attempts
      → IsSent e
      → IsEndpoint ep
      → IsOwedOption (delivery_for wire e ep drawn)
  unfolding delivery_for
  delivery_for-IsOwed e ep drawn tries sent listed =
      elim (Bool-cases (matches ep (text_of e.entity.0) (text_of e.action))) [
        | inl wanted ↦ rw wanted (build_job-IsOwed e ep drawn tries sent listed wanted)
        | inr other ↦ rw other tt
      ]

  -- A failed attempt below the last one is owed again.
  pub retried-IsOwed :
      (j : Job)
      → IsOwed j
      → leb o.max_attempts j.attempt ≡ false
      → IsOwed (record j { attempt = j.attempt + 1 })
  retried-IsOwed j h again = record {
    event = h.event;
    sent = h.sent;
    endpoint = h.endpoint;
    listed = h.listed;
    wanted = h.wanted;
    addressed = h.addressed;
    written = h.written;
    is_signed = h.is_signed;
    started = omega arith;
    bounded = ground (arith, again);
  }

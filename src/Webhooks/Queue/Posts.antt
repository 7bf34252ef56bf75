-- ===== src/Webhooks/Queue/Posts.antt =====
-- What internal/webhook/dispatcher.go posts: which requests are made, to whom, and how they are signed.
use almanaut.Base.{
  All, Bool-cases, List, Option, [], arith, bool_eq, inl, inr, leb, length, list_eq, ltb, nat_eq,
  none, pair_eq, some, string_eq, ℕ, ◌++◌, ◌∷◌, ◌≤◌,
}
use almanaut.Resource.{Event}
use almanaut.Webhooks.{Webhook}
use almanaut.Webhooks.Queue.{
  Job, Options, Queue, Reach, Step, Wire, abandoned, add_job, add_one, after_post, attempted,
  delivery_for, dispatch_one, dispatched, enqueue, expand_endpoint, expand_next, expanded,
  expanding, is_delivered, start, step, take_event, take_job, timer_fires, with_defaults,
}
use almanaut.Webhooks.Queue.Owed.{
  IsExpanding, IsOwed, IsOwedOption, delivery_for-IsOwed, retried-IsOwed,
}

All-snoc :
    {A : Type 0} (P : A → Type 0) (xs : List A) (x : A) → All P xs → P x → All P (xs ++ x ∷ [])
All-snoc P [] x h p = (p, tt)
All-snoc P (y ∷ xs) x h p = (h.0, All-snoc P xs x h.1 p)

All-middle :
    {A : Type 0} (P : A → Type 0) (before : List A) (x : A) (after : List A)
    → All P (before ++ x ∷ after)
    → P x × All P (before ++ after)
All-middle P [] x after h = h
All-middle P (y ∷ before) x after h =
    let (there, others) = All-middle P before x after h.1 in (there, (h.0, others))

with_defaults_tries : (o : Options) → 1 ≤ (with_defaults o).max_attempts
unfolding with_defaults
with_defaults_tries o = ground arith

module _ (o : Options) (wire : Wire) (IsEndpoint : Webhook → Type 0) (IsSent : Event → Type 0) where
  abbrev Owed : Job → Type 0
  Owed = IsOwed o wire IsEndpoint IsSent

  record HoldsOwed (q : Queue) : Type 0 where
    events_sent : All IsSent q.events
    expander_owed : IsExpanding o wire IsEndpoint IsSent q.expander
    jobs_owed : All Owed q.jobs
    busy_owed : All Owed q.busy
    delayed_owed : All (λ (entry : ℕ × Job). Owed entry.1) q.delayed
    posts_owed : All Owed q.posts

  enqueue-HoldsOwed : (j : Job) (q : Queue) → Owed j → HoldsOwed q → HoldsOwed (enqueue o j q)
  unfolding enqueue
  enqueue-HoldsOwed j q owed h = elim (Bool-cases (ltb (length q.jobs) o.queue_size)) [
    | inl room ↦ rw room (record {
      events_sent = h.events_sent;
      expander_owed = h.expander_owed;
      jobs_owed = All-snoc Owed q.jobs j h.jobs_owed owed;
      busy_owed = h.busy_owed;
      delayed_owed = h.delayed_owed;
      posts_owed = h.posts_owed;
    })
    | inr full ↦ rw full (record {
      events_sent = h.events_sent;
      expander_owed = h.expander_owed;
      jobs_owed = h.jobs_owed;
      busy_owed = h.busy_owed;
      delayed_owed = h.delayed_owed;
      posts_owed = h.posts_owed;
    })
  ]

  dispatch_one-HoldsOwed :
      (e : Event) (q : Queue) → IsSent e → HoldsOwed q → HoldsOwed (dispatch_one o e q)
  unfolding dispatch_one
  dispatch_one-HoldsOwed e q sent h = elim (Bool-cases (ltb (length q.events) o.queue_size)) [
    | inl room ↦ rw room (record {
      events_sent = All-snoc IsSent q.events e h.events_sent sent;
      expander_owed = h.expander_owed;
      jobs_owed = h.jobs_owed;
      busy_owed = h.busy_owed;
      delayed_owed = h.delayed_owed;
      posts_owed = h.posts_owed;
    })
    | inr full ↦ rw full (record {
      events_sent = h.events_sent;
      expander_owed = h.expander_owed;
      jobs_owed = h.jobs_owed;
      busy_owed = h.busy_owed;
      delayed_owed = h.delayed_owed;
      posts_owed = h.posts_owed;
    })
  ]

  add_job-HoldsOwed :
      (made : Option Job) (q : Queue)
      → IsOwedOption o wire IsEndpoint IsSent made
      → HoldsOwed q
      → HoldsOwed (add_job o made q)
  add_job-HoldsOwed none q owed h = h
  add_job-HoldsOwed (some j) q owed h = enqueue-HoldsOwed j (add_one q) owed (record {
    events_sent = h.events_sent;
    expander_owed = h.expander_owed;
    jobs_owed = h.jobs_owed;
    busy_owed = h.busy_owed;
    delayed_owed = h.delayed_owed;
    posts_owed = h.posts_owed;
  })

  after_post-HoldsOwed :
      (j : Job) (answer : Option ℕ) (q : Queue)
      → Owed j
      → HoldsOwed q
      → HoldsOwed (after_post o j answer q)
  unfolding after_post
  after_post-HoldsOwed j answer q owed h = elim (Bool-cases (is_delivered answer)) [
    | inl delivered ↦ rw delivered (record {
      events_sent = h.events_sent;
      expander_owed = h.expander_owed;
      jobs_owed = h.jobs_owed;
      busy_owed = h.busy_owed;
      delayed_owed = h.delayed_owed;
      posts_owed = h.posts_owed;
    })
    | inr lost ↦ elim (Bool-cases (leb o.max_attempts j.attempt)) [
      | inl last ↦
          rw (lost, last)
            (record {
              events_sent = h.events_sent;
              expander_owed = h.expander_owed;
              jobs_owed = h.jobs_owed;
              busy_owed = h.busy_owed;
              delayed_owed = h.delayed_owed;
              posts_owed = h.posts_owed;
            })
      | inr again ↦
          rw (lost, again)
            (record {
              events_sent = h.events_sent;
              expander_owed = h.expander_owed;
              jobs_owed = h.jobs_owed;
              busy_owed = h.busy_owed;
              delayed_owed = (retried-IsOwed o wire IsEndpoint IsSent j owed again, h.delayed_owed);
              posts_owed = h.posts_owed;
            })
    ]
  ]

  module _ {IsListed : List Webhook → Type 0} where
    Step-HoldsOwed :
        {q q' : Queue}
        → 1 ≤ o.max_attempts
        → ((endpoints : List Webhook) → IsListed endpoints → All IsEndpoint endpoints)
        → Step o wire IsListed q q'
        → HoldsOwed q
        → HoldsOwed q'
    unfolding expand_endpoint
    Step-HoldsOwed {q} tries each (take_event e {rest} endpoints free first listed new) h =
        let events : All IsSent (e ∷ rest) = rw first at h.events_sent in
        rw new (record {
          events_sent = events.1;
          expander_owed = (events.0, each endpoints listed);
          jobs_owed = h.jobs_owed;
          busy_owed = h.busy_owed;
          delayed_owed = h.delayed_owed;
          posts_owed = h.posts_owed;
        })
    Step-HoldsOwed {q} tries each (expand_next e ep {endpoints} drawn at new) h =
        let owed : IsExpanding o wire IsEndpoint IsSent (expanding e (ep ∷ endpoints)) =
          rw at at h.expander_owed in
        rw new (
          add_job-HoldsOwed (delivery_for wire e ep drawn)
            (record q { expander = expanding e endpoints })
            (delivery_for-IsOwed o wire IsEndpoint IsSent e ep drawn tries owed.0 owed.1.0)
            (record {
              events_sent = h.events_sent;
              expander_owed = (owed.0, owed.1.1);
              jobs_owed = h.jobs_owed;
              busy_owed = h.busy_owed;
              delayed_owed = h.delayed_owed;
              posts_owed = h.posts_owed;
            }))
    Step-HoldsOwed {q} tries each (expanded e at new) h = rw new (record {
      events_sent = h.events_sent;
      expander_owed = tt;
      jobs_owed = h.jobs_owed;
      busy_owed = h.busy_owed;
      delayed_owed = h.delayed_owed;
      posts_owed = h.posts_owed;
    })
    Step-HoldsOwed {q} tries each (abandoned e endpoints at new) h = rw new (record {
      events_sent = h.events_sent;
      expander_owed = tt;
      jobs_owed = h.jobs_owed;
      busy_owed = h.busy_owed;
      delayed_owed = h.delayed_owed;
      posts_owed = h.posts_owed;
    })
    Step-HoldsOwed {q} tries each (take_job j {rest} first idle new) h =
        let jobs : All Owed (j ∷ rest) = rw first at h.jobs_owed in
        rw new (record {
          events_sent = h.events_sent;
          expander_owed = h.expander_owed;
          jobs_owed = jobs.1;
          busy_owed = (jobs.0, h.busy_owed);
          delayed_owed = h.delayed_owed;
          posts_owed = h.posts_owed;
        })
    Step-HoldsOwed {q} tries each (attempted j before after answer holds new) h =
        let (owed, others) = All-middle Owed before j after (rw holds at h.busy_owed) in
        rw new (
          after_post-HoldsOwed j answer (record q { busy = before ++ after; posts = j ∷ q.posts })
            owed
            (record {
              events_sent = h.events_sent;
              expander_owed = h.expander_owed;
              jobs_owed = h.jobs_owed;
              busy_owed = others;
              delayed_owed = h.delayed_owed;
              posts_owed = (owed, h.posts_owed);
            }))
    Step-HoldsOwed {q} tries each (timer_fires delay j before after holds new) h =
        let (owed, others) =
          All-middle (λ (entry : ℕ × Job). Owed entry.1) before (delay, j) after
            (rw holds at h.delayed_owed) in
        rw new (
          enqueue-HoldsOwed j (record q { delayed = before ++ after }) owed
            (record {
              events_sent = h.events_sent;
              expander_owed = h.expander_owed;
              jobs_owed = h.jobs_owed;
              busy_owed = h.busy_owed;
              delayed_owed = others;
              posts_owed = h.posts_owed;
            }))

    Reach-HoldsOwed :
        {q : Queue}
        → 1 ≤ o.max_attempts
        → ((endpoints : List Webhook) → IsListed endpoints → All IsEndpoint endpoints)
        → Reach o wire IsListed IsSent q
        → HoldsOwed q
    Reach-HoldsOwed tries each start = record {
      events_sent = tt;
      expander_owed = tt;
      jobs_owed = tt;
      busy_owed = tt;
      delayed_owed = tt;
      posts_owed = tt;
    }
    Reach-HoldsOwed tries each (step r st) =
        Step-HoldsOwed tries each st (Reach-HoldsOwed tries each r)
    Reach-HoldsOwed tries each (dispatched {q} e sent r) =
        dispatch_one-HoldsOwed e q sent (Reach-HoldsOwed tries each r)

-- Every request that a queue with the options of `NewQueue` makes, in whatever order its goroutines
-- run, is owed: it goes to an endpoint that `ListEnabled` answered with and whose filters want an
-- event that was dispatched; its body is that event under the delivery's id, signed with that
-- endpoint's secret; and it is an attempt from the first to the greatest number allowed.
pub posts-IsOwed :
    (o : Options) (wire : Wire) (IsListed : List Webhook → Type 0) (IsEndpoint : Webhook → Type 0)
    (IsSent : Event → Type 0) {q : Queue}
    → ((endpoints : List Webhook) → IsListed endpoints → All IsEndpoint endpoints)
    → Reach (with_defaults o) wire IsListed IsSent q
    → All (IsOwed (with_defaults o) wire IsEndpoint IsSent) q.posts
posts-IsOwed o wire IsListed IsEndpoint IsSent each r =
    (Reach-HoldsOwed (with_defaults o) wire IsEndpoint IsSent (with_defaults_tries o) each
      r).posts_owed

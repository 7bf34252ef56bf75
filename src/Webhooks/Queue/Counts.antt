-- ===== src/Webhooks/Queue/Counts.antt =====
-- The counter that `Wait` waits on, and the bounds of the queue's channels and workers.
use almanaut.Base.{
  Bool-cases, List, Option, [], ap, arith, bool_eq, inl, inr, leb, length, length-append, list_eq,
  ltb, nat_eq, none, pair_eq, refl, some, string_eq, suc, ℕ, ◌++◌, ◌+◌, ◌∙◌, ◌∷◌, ◌≡◌, ◌≤◌,
}
use almanaut.Resource.{Event}
use almanaut.Webhooks.{Webhook}
use almanaut.Webhooks.Queue.{
  Expander, Job, Options, Queue, Reach, Step, Wire, abandoned, add_job, add_one, after_post,
  attempted, delivery_for, dispatch_one, dispatched, done, enqueue, expand_endpoint, expand_next,
  expanded, expanding, is_delivered, start, step, take_event, take_job, timer_fires, waiting,
}

abbrev pub expansions : Expander → ℕ
expansions waiting = 0
expansions (expanding e endpoints) = 1

-- The events and jobs that the queue has not ended with.
abbrev pub unfinished : Queue → ℕ
unfinished q =
    length q.events + expansions q.expander + length q.jobs + length q.busy + length q.delayed

-- Every slot of the counter is for something unfinished, but `held` ones, which the code that runs has
-- in its hand; and no channel holds more than its size, nor more workers a job than there are.
pub record Accounts (o : Options) (held : ℕ) (q : Queue) : Type 0 where
  pub counted : q.outstanding ≡ held + unfinished q
  pub events_fit : length q.events ≤ o.queue_size
  pub jobs_fit : length q.jobs ≤ o.queue_size
  pub busy_fit : length q.busy ≤ o.workers

abbrev pub IsValid : Options → Queue → Type 0
IsValid o = Accounts o 0

pub length-middle {ℓ} :
    {A : Type ℓ} (before after : List A) (a : A)
    → length (before ++ a ∷ after) ≡ suc (length (before ++ after))
length-middle [] after a = refl
length-middle (x ∷ before) after a = ap suc (length-middle before after a)

module _ (o : Options) where
  done-IsValid : (q : Queue) → Accounts o 1 q → IsValid o (done q)
  done-IsValid q v = record {
    counted = omega (arith, v.counted);
    events_fit = v.events_fit;
    jobs_fit = v.jobs_fit;
    busy_fit = v.busy_fit;
  }

  add_one-Accounts : (q : Queue) → IsValid o q → Accounts o 1 (add_one q)
  add_one-Accounts q v = record {
    counted = omega (arith, v.counted);
    events_fit = v.events_fit;
    jobs_fit = v.jobs_fit;
    busy_fit = v.busy_fit;
  }

  enqueue-IsValid : (j : Job) (q : Queue) → Accounts o 1 q → IsValid o (enqueue o j q)
  unfolding enqueue
  enqueue-IsValid j q v = elim (Bool-cases (ltb (length q.jobs) o.queue_size)) [
    | inl room ↦ rw room (record {
      counted = omega (arith, v.counted, length-append {0} q.jobs (j ∷ []));
      events_fit = v.events_fit;
      jobs_fit = ground (arith, length-append {0} q.jobs (j ∷ []));
      busy_fit = v.busy_fit;
    })
    | inr full ↦ rw full (done-IsValid q v)
  ]

  pub dispatch_one-IsValid : (e : Event) (q : Queue) → IsValid o q → IsValid o (dispatch_one o e q)
  unfolding dispatch_one
  dispatch_one-IsValid e q v = elim (Bool-cases (ltb (length q.events) o.queue_size)) [
    | inl room ↦ rw room (record {
      counted = omega (arith, v.counted, length-append {0} q.events (e ∷ []));
      events_fit = ground (arith, length-append {0} q.events (e ∷ []));
      jobs_fit = v.jobs_fit;
      busy_fit = v.busy_fit;
    })
    | inr full ↦ rw full (done-IsValid (add_one q) (add_one-Accounts q v))
  ]

  add_job-IsValid : (made : Option Job) (q : Queue) → IsValid o q → IsValid o (add_job o made q)
  add_job-IsValid none q v = v
  add_job-IsValid (some j) q v = enqueue-IsValid j (add_one q) (add_one-Accounts q v)

  after_post-IsValid :
      (j : Job) (answer : Option ℕ) (q : Queue)
      → Accounts o 1 q
      → IsValid o (after_post o j answer q)
  unfolding after_post
  after_post-IsValid j answer q v = elim (Bool-cases (is_delivered answer)) [
    | inl delivered ↦ rw delivered (done-IsValid q v)
    | inr lost ↦ elim (Bool-cases (leb o.max_attempts j.attempt)) [
      | inl last ↦ rw (lost, last) (done-IsValid q v)
      | inr again ↦
          rw (lost, again)
            (record {
              counted = omega (arith, v.counted);
              events_fit = v.events_fit;
              jobs_fit = v.jobs_fit;
              busy_fit = v.busy_fit;
            })
    ]
  ]

  module _ {wire : Wire} {IsListed : List Webhook → Type 0} where
    pub Step-IsValid : {q q' : Queue} → Step o wire IsListed q q' → IsValid o q → IsValid o q'
    unfolding expand_endpoint
    Step-IsValid {q} (take_event e endpoints free first listed new) v = rw new (record {
      counted = ground (arith, v.counted);
      events_fit = ground (arith, v.events_fit);
      jobs_fit = v.jobs_fit;
      busy_fit = v.busy_fit;
    })
    Step-IsValid {q} (expand_next e ep {endpoints} drawn at new) v = rw new (
        add_job-IsValid (delivery_for wire e ep drawn)
          (record q { expander = expanding e endpoints })
          (record {
            counted = ground (arith, v.counted);
            events_fit = v.events_fit;
            jobs_fit = v.jobs_fit;
            busy_fit = v.busy_fit;
          }))
    Step-IsValid {q} (expanded e at new) v = rw new (
        done-IsValid (record q { expander = waiting })
          (record {
            counted = ground (arith, v.counted);
            events_fit = v.events_fit;
            jobs_fit = v.jobs_fit;
            busy_fit = v.busy_fit;
          }))
    Step-IsValid {q} (abandoned e endpoints at new) v = rw new (
        done-IsValid (record q { expander = waiting })
          (record {
            counted = ground (arith, v.counted);
            events_fit = v.events_fit;
            jobs_fit = v.jobs_fit;
            busy_fit = v.busy_fit;
          }))
    Step-IsValid {q} (take_job j {rest} first idle new) v = rw new (record {
      counted = ground (arith, v.counted);
      events_fit = v.events_fit;
      jobs_fit = ground (arith, v.jobs_fit);
      busy_fit = omega arith;
    })
    Step-IsValid {q} (attempted j before after answer holds new) v =
        let size = ap length holds ∙ length-middle before after j in
        rw new (
          after_post-IsValid j answer (record q { busy = before ++ after; posts = j ∷ q.posts })
            (record {
              counted = omega (arith, v.counted, size);
              events_fit = v.events_fit;
              jobs_fit = v.jobs_fit;
              busy_fit = omega (arith, v.busy_fit, size);
            }))
    Step-IsValid {q} (timer_fires delay j before after holds new) v =
        let size = ap length holds ∙ length-middle before after (delay, j) in
        rw new (
          enqueue-IsValid j (record q { delayed = before ++ after })
            (record {
              counted = omega (arith, v.counted, size);
              events_fit = v.events_fit;
              jobs_fit = v.jobs_fit;
              busy_fit = v.busy_fit;
            }))

    -- Whatever is dispatched and in whatever order the goroutines run: the counter that `Wait` waits on
    -- is the number of events and jobs that are not finished, so that it is 0 exactly when nothing is
    -- left; the channels hold no more than their size, and no more jobs are in work than workers.
    pub Reach-IsValid :
        (IsSent : Event → Type 0) {q : Queue} → Reach o wire IsListed IsSent q → IsValid o q
    Reach-IsValid IsSent start = record {
      counted = refl;
      events_fit = omega arith;
      jobs_fit = omega arith;
      busy_fit = omega arith;
    }
    Reach-IsValid IsSent (step r st) = Step-IsValid st (Reach-IsValid IsSent r)
    Reach-IsValid IsSent (dispatched e sent r) = dispatch_one-IsValid e _ (Reach-IsValid IsSent r)

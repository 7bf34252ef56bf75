-- ===== src/Webhooks/Queue/Drains.antt =====
-- `Wait` of internal/webhook/dispatcher.go returns: once nothing is dispatched any more, the queue can
-- only make so many steps, and it can make one as long as something is left.
use almanaut.Base.{
  Bool-cases, List, Option, [], ap, arith, bool_eq, inl, inr, leb, length, list_eq, ltb, nat_eq,
  none, pair_eq, refl, some, string_eq, suc, zero, ℕ, ◌*◌, ◌++◌, ◌+◌, ◌-◌, ◌<◌, ◌∷◌, ◌≡◌, ◌≢◌, ◌≤◌,
  ◌⊎◌,
}
use almanaut.Resource.{Event}
use almanaut.Webhooks.{Webhook}
use almanaut.Webhooks.Queue.{
  Expander, Job, Options, Queue, Reach, Runs, Step, Wire, abandoned, add_job, add_one, after_post,
  attempted, delivery_for, enqueue, expand_endpoint, expand_next, expanded, expanding, here,
  is_delivered, next, take_event, take_job, timer_fires, waiting, with_defaults,
}
use almanaut.Webhooks.Queue.Counts.{IsValid, Reach-IsValid, Step-IsValid}

-- How often a job can still move: at most three steps lead to its next attempt.
abbrev attempts_left : Options → Job → ℕ
attempts_left o j = o.max_attempts - j.attempt

abbrev waiting_weight : Options → Job → ℕ
waiting_weight o j = 3 * attempts_left o j + 2

abbrev busy_weight : Options → Job → ℕ
busy_weight o j = 3 * attempts_left o j + 1

abbrev delayed_weight : Options → ℕ × Job → ℕ
delayed_weight o (delay, j) = 3 * attempts_left o j + 3

abbrev endpoint_weight : Options → ℕ
endpoint_weight o = 3 * o.max_attempts + 3

abbrev weigh {ℓ} : {A : Type ℓ} → (A → ℕ) → List A → ℕ
weigh w [] = 0
weigh w (x ∷ xs) = w x + weigh w xs

weigh-append {ℓ} :
    {A : Type ℓ} (w : A → ℕ) (xs ys : List A) → weigh w (xs ++ ys) ≡ weigh w xs + weigh w ys
weigh-append w [] ys = omega arith
weigh-append w (x ∷ xs) ys = omega (arith, weigh-append w xs ys)

weigh-middle {ℓ} :
    {A : Type ℓ} (w : A → ℕ) (before after : List A) (x : A)
    → weigh w (before ++ x ∷ after) ≡ w x + weigh w (before ++ after)
weigh-middle w before after x =
    omega (arith, weigh-append {ℓ} w before (x ∷ after), weigh-append {ℓ} w before after)

abbrev times : ℕ → ℕ → ℕ
times zero c = 0
times (suc n) c = c + times n c

times_mono : (m n c : ℕ) → m ≤ n → times m c ≤ times n c
times_mono zero n c h = omega arith
times_mono (suc m) zero c h = absurd (omega arith)
times_mono (suc m) (suc n) c h = omega (arith, times_mono m n c (omega arith))

module _ (o : Options) where
  abbrev expander_weight : Expander → ℕ
  expander_weight waiting = 0
  expander_weight (expanding e endpoints) = 1 + times (length endpoints) (endpoint_weight o)

  -- A bound on the steps that a queue can make, where `ListEnabled` has at most `limit` answers.
  abbrev pub weight : ℕ → Queue → ℕ
  weight limit q =
      times (length q.events) (2 + times limit (endpoint_weight o))
      + expander_weight q.expander
      + weigh (waiting_weight o) q.jobs
      + weigh (busy_weight o) q.busy
      + weigh (delayed_weight o) q.delayed

  weight-enqueue :
      (limit : ℕ) (j : Job) (q : Queue)
      → weight limit (enqueue o j q) ≤ waiting_weight o j + weight limit q
  unfolding enqueue
  weight-enqueue limit j q = elim (Bool-cases (ltb (length q.jobs) o.queue_size)) [
    | inl room ↦ rw room (omega (arith, weigh-append {0} (waiting_weight o) q.jobs (j ∷ [])))
    | inr full ↦ rw full (omega arith)
  ]

  -- A job for a new endpoint is at its first attempt.
  weight-add_job :
      (limit : ℕ) (made : Option Job) (q : Queue)
      → weight limit (add_job o made q) < endpoint_weight o + weight limit q
  weight-add_job limit none q = omega arith
  weight-add_job limit (some j) q = omega (arith, weight-enqueue limit j (add_one q))

  weight-after_post :
      (limit : ℕ) (j : Job) (answer : Option ℕ) (q : Queue)
      → weight limit (after_post o j answer q) < busy_weight o j + weight limit q
  unfolding after_post
  weight-after_post limit j answer q = elim (Bool-cases (is_delivered answer)) [
    | inl delivered ↦ rw delivered (omega arith)
    | inr lost ↦ elim (Bool-cases (leb o.max_attempts j.attempt)) [
      | inl last ↦ rw (lost, last) (omega arith)
      | inr again ↦ rw (lost, again) (ground (arith, again))
    ]
  ]

  module _ {wire : Wire} {IsListed : List Webhook → Type 0} where
    weight-Step :
        (limit : ℕ) {q q' : Queue}
        → ((endpoints : List Webhook) → IsListed endpoints → length endpoints ≤ limit)
        → Step o wire IsListed q q'
        → weight limit q' < weight limit q
    unfolding expand_endpoint
    weight-Step limit {q} few (take_event e endpoints free first listed new) =
        rw (new, first, free)
          (omega
            (arith, times_mono (length endpoints) limit (endpoint_weight o) (few endpoints listed)))
    weight-Step limit {q} few (expand_next e ep {endpoints} drawn at new) =
        rw (new, at)
          (omega (
            arith,
            weight-add_job limit (delivery_for wire e ep drawn)
                (record q { expander = expanding e endpoints }),
          ))
    weight-Step limit {q} few (expanded e at new) = rw (new, at) (omega arith)
    weight-Step limit {q} few (abandoned e endpoints at new) = rw (new, at) (omega arith)
    weight-Step limit {q} few (take_job j first idle new) = rw (new, first) (omega arith)
    weight-Step limit {q} few (attempted j before after answer holds new) =
        rw (new, holds)
          (omega (
            arith,
            weigh-middle {0} (busy_weight o) before after j,
            weight-after_post limit j answer
                (record q { busy = before ++ after; posts = j ∷ q.posts }),
          ))
    weight-Step limit {q} few (timer_fires delay j before after holds new) =
        rw (new, holds)
          (omega (
            arith,
            weigh-middle {0} (delayed_weight o) before after (delay, j),
            weight-enqueue limit j (record q { delayed = before ++ after }),
          ))

List-cases {ℓ} :
    {A : Type ℓ} (xs : List A) → (xs ≡ []) ⊎ ((x : A) × (rest : List A) × (xs ≡ x ∷ rest))
List-cases [] = inl refl
List-cases (x ∷ rest) = inr (x, rest, refl)

Expander-cases :
    (x : Expander)
    → (x ≡ waiting) ⊎ ((e : Event) × (endpoints : List Webhook) × (x ≡ expanding e endpoints))
Expander-cases waiting = inl refl
Expander-cases (expanding e endpoints) = inr (e, endpoints, refl)

module _ (o : Options) (wire : Wire) (IsListed : List Webhook → Type 0) where
  abbrev CanStep : Queue → Type 0
  CanStep q = (q' : Queue) × Step o wire IsListed q q'

  -- An event, once the expander is free.
  event_moves : (q : Queue) → IsListed [] → q.expander ≡ waiting → length q.events ≢ 0 → CanStep q
  event_moves q none_listed free some_event = elim (List-cases q.events) [
    | inl empty ↦ absurd (some_event (ap length empty))
    | inr (e, rest, first) ↦ (_, take_event e [] free first none_listed refl)
  ]

  can_step : (q : Queue) → 0 < o.workers → IsListed [] → IsValid o q → q.outstanding ≢ 0 → CanStep q
  can_step q staffed none_listed v left = elim (List-cases q.busy) [
    | inr (j, rest, first) ↦ (_, attempted j [] rest none first refl)
    | inl idle ↦ elim (List-cases q.jobs) [
      | inr (j, rest, first) ↦ (_, take_job j first (rw idle staffed) refl)
      | inl no_jobs ↦ elim (List-cases q.delayed) [
        | inr ((delay, j), rest, first) ↦ (_, timer_fires delay j [] rest first refl)
        | inl no_timers ↦ elim (Expander-cases q.expander) [
          | inr (e, endpoints, at) ↦ (_, abandoned e endpoints at refl)
          | inl free ↦
              event_moves q none_listed free
                (ground (arith, v.counted, idle, no_jobs, no_timers, free))
        ]
      ]
    ]
  ]

  Runs-weight :
      (limit : ℕ) {q q' : Queue} {n : ℕ}
      → ((endpoints : List Webhook) → IsListed endpoints → length endpoints ≤ limit)
      → Runs o wire IsListed q n q'
      → n + weight o limit q' ≤ weight o limit q
  Runs-weight limit few here = omega arith
  Runs-weight limit few (next r st) =
      omega (arith, Runs-weight limit few r, weight-Step o limit few st)

  Runs-IsValid : {q q' : Queue} {n : ℕ} → Runs o wire IsListed q n q' → IsValid o q → IsValid o q'
  Runs-IsValid here v = v
  Runs-IsValid (next r st) v = Step-IsValid o st (Runs-IsValid r v)

with_defaults-staffed : (o : Options) → 0 < (with_defaults o).workers
unfolding with_defaults
with_defaults-staffed o = ground arith

-- From any state that a queue with the options of `NewQueue` can reach, once nothing more is dispatched
-- and `ListEnabled` may answer with none and never with more than `limit` endpoints: every schedule makes at most as
-- many steps as the state weighs, and as long as `Wait` would block there is a step to make.
pub wait_returns :
    (o : Options) (wire : Wire) (IsListed : List Webhook → Type 0) (IsSent : Event → Type 0)
    (limit : ℕ) {q q' : Queue} {n : ℕ}
    → ((endpoints : List Webhook) → IsListed endpoints → length endpoints ≤ limit)
    → IsListed []
    → Reach (with_defaults o) wire IsListed IsSent q
    → Runs (with_defaults o) wire IsListed q n q'
    → (n ≤ weight (with_defaults o) limit q)
      × (q'.outstanding ≢ 0 → (r : Queue) × Step (with_defaults o) wire IsListed q' r)
wait_returns o wire IsListed IsSent limit few none_listed r run = (
  omega (arith, Runs-weight (with_defaults o) wire IsListed limit few run),
  can_step (with_defaults o) wire IsListed _ (with_defaults-staffed o) none_listed
      (Runs-IsValid (with_defaults o) wire IsListed run (Reach-IsValid (with_defaults o) IsSent r)),
)

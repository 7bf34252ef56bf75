-- ===== src/Jobs/Passes.antt =====
-- The passes that the loop of internal/job/job.go makes.
use almanaut.Base.{
  Bool, Bool-cases, List, Option, [], arith, bool_eq, false, if◌then◌else◌, inl, inr, list_eq,
  nat_eq, none, pair_eq, refl, some, string_eq, suc, sym, true, zero, ℕ, ◌++◌, ◌+◌, ◌∙◌, ◌∷◌, ◌≡◌,
  ◌≤◌,
}
use almanaut.Jobs.{
  Definition, Event, Job, Loop, Outcome, Phase, and_then, finish, first, manual, passing, request,
  run, start, step, tick, waiting,
}

abbrev pub count_events : (Event → Bool) → List Event → ℕ
count_events p [] = 0
count_events p (e ∷ es) = if p e then suc (count_events p es) else count_events p es

abbrev pub is_manual : Event → Bool
is_manual (manual now) = true
is_manual _ = false

abbrev pub is_finish : Event → Bool
is_finish (finish now outcome) = true
is_finish _ = false

abbrev pub is_request : Event → Bool
is_request request = true
is_request _ = false

abbrev pub starts_pass : Event → Bool
starts_pass (first now) = true
starts_pass (tick now) = true
starts_pass (manual now) = true
starts_pass _ = false

abbrev pub in_pass : Phase → Bool
in_pass (passing start) = true
in_pass _ = false

abbrev pub to_ℕ : Bool → ℕ
to_ℕ true = 1
to_ℕ false = 0

-- What one event does to the counts.
record Counts (l l' : Loop) (e : Event) : Type 0 where
  finished : l'.job.runs ≡ l.job.runs + to_ℕ (is_finish e)
  open_passes :
      to_ℕ (in_pass l'.phase) + to_ℕ (is_finish e) ≡ to_ℕ (in_pass l.phase) + to_ℕ (starts_pass e)
  flag : l.job.running ≡ in_pass l.phase → l'.job.running ≡ in_pass l'.phase
  pending : to_ℕ (l'.job.trigger) + to_ℕ (is_manual e) ≤ to_ℕ (l.job.trigger) + to_ℕ (is_request e)

step-Counts : (l l' : Loop) (e : Event) → step l e ≡ some l' → Counts l l' e
unfolding step
step-Counts l l' e h = ground arith

and_then-some :
    (o : Option Loop) (f : Loop → Option Loop) {end : Loop}
    → and_then o f ≡ some end
    → (l : Loop) × (o ≡ some l) × (f l ≡ some end)
and_then-some none f h = absurd (cc h)
and_then-some (some l) f h = (l, refl, h)

record Totals (l end : Loop) (es : List Event) : Type 0 where
  pub finished : end.job.runs ≡ l.job.runs + count_events is_finish es
  pub open_passes :
      to_ℕ (in_pass end.phase) + count_events is_finish es
      ≡ to_ℕ (in_pass l.phase) + count_events starts_pass es
  pub flag : l.job.running ≡ in_pass l.phase → end.job.running ≡ in_pass end.phase
  pub pending :
      to_ℕ (end.job.trigger) + count_events is_manual es
      ≤ to_ℕ (l.job.trigger) + count_events is_request es

count_events-cons :
    (p : Event → Bool) (e : Event) (es : List Event)
    → count_events p (e ∷ es) ≡ to_ℕ (p e) + count_events p es
count_events-cons p e es = ground arith

run-Totals : (l end : Loop) (es : List Event) → run l es ≡ some end → Totals l end es
unfolding run
run-Totals l end [] h = ground arith
run-Totals l end (e ∷ es) h =
    let (l', stepped, rest) = and_then-some (step l e) (λ l'. run l' es) h in
    let c = step-Counts l l' e stepped in
    let t = run-Totals l' end es rest in
    record {
      finished = rw count_events-cons (omega (arith, c.finished, t.finished));
      open_passes =
          rw (count_events-cons is_finish e es, count_events-cons starts_pass e es)
            (omega (arith, c.open_passes, t.open_passes));
      flag = λ same. t.flag (c.flag same);
      pending =
          rw (count_events-cons is_manual e es, count_events-cons is_request e es)
            (omega (arith, c.pending, t.pending));
    }

-- Whatever a registered job's loop does: `runs` counts the passes that ended, at most one pass is open
-- at any time and `running` says whether one is, and the passes on manual runs are no more than the
-- requests for them.
pub run_totals :
    (d : Definition) (es : List Event) (l : Loop)
    → run (start d) es ≡ some l
    → (l.job.runs ≡ count_events is_finish es)
      × (count_events starts_pass es ≡ l.job.runs + to_ℕ (in_pass l.phase))
      × (l.job.running ≡ in_pass l.phase)
      × (count_events is_manual es ≤ count_events is_request es)
run_totals d es l h =
    let t = run-Totals (start d) l es h in
    (
      omega (arith, t.finished),
      omega (arith, t.finished, t.open_passes),
      t.flag refl,
      omega (arith, t.pending),
    )

abbrev pub requests : ℕ → List Event
requests zero = []
requests (suc n) = request ∷ requests n

-- Requests in a pass only set the flag.
requests_in_pass :
    (j : Job) (s n : ℕ) (es : List Event)
    → run (record { job = j; phase = passing s }) (requests (suc n) ++ es)
      ≡ run (record { job = record j { trigger = true }; phase = passing s }) es
unfolding run step
requests_in_pass j s zero es = refl
requests_in_pass j s (suc n) es = requests_in_pass (record j { trigger = true }) s n es

after_finish :
    (j : Job) (s t : ℕ) (o : Outcome) (l : Loop)
    → run (record { job = record j { trigger = true }; phase = passing s }) (finish t o ∷ [])
      ≡ some l
    → (l.phase ≡ waiting) × (l.job.trigger ≡ true)
unfolding run step
after_finish j s t o l h = (ground arith, ground arith)

-- Requests that arrive in a pass, however many, become one further pass: when the pass ends the
-- loop can make it, and with no new request it makes no second one.
pub requests_coalesce :
    (j : Job) (s n t : ℕ) (o : Outcome) (now : ℕ) (es : List Event) (l end : Loop)
    → run (record { job = j; phase = passing s }) (requests (suc n) ++ finish t o ∷ []) ≡ some l
    → count_events is_request es ≡ 0
    → run l es ≡ some end
    → ((next : Loop) × (step l (manual now) ≡ some next)) × (count_events is_manual es ≤ 1)
requests_coalesce j s n t o now es l end before quiet later =
    let closed = after_finish j s t o l (sym (requests_in_pass j s n (finish t o ∷ [])) ∙ before) in
    (
      unfold step in rw (closed.0, closed.1) (_, refl),
      bounded l end es quiet (run-Totals l end es later).pending,
    )
  where
    bounded :
        (l end : Loop) (es : List Event)
        → count_events is_request es ≡ 0
        → to_ℕ (end.job.trigger) + count_events is_manual es
          ≤ to_ℕ (l.job.trigger) + count_events is_request es
        → count_events is_manual es ≤ 1
    bounded l end es quiet p = elim (Bool-cases l.job.trigger) [
      | inl on ↦ ground arith
      | inr off ↦ ground arith
    ]

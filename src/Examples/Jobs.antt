-- ===== src/Examples/Jobs.antt =====
-- Inputs for the theorems on internal/job/job.go.
use almanaut.Base.{
  List, [], bool_eq, list_eq, nat_eq, pair_eq, refl, some, string_eq, true, ◌∷◌, ◌≡◌, ◌≤◌,
}
use almanaut.Base.Text.{text_of}
use almanaut.Jobs.{
  Definition, Event, Loop, done, finish, first, manual, new_job, passing, request, run, start, step,
  waiting,
}
use almanaut.Jobs.Passes.{count_events, is_manual, requests_coalesce}

abbrev hourly : Definition
hourly = record { name = "liveness"; title = text_of "Liveness"; interval = 60; timeout = 5 }

abbrev busy : List Event
busy = first 1 ∷ request ∷ request ∷ finish 3 done ∷ manual 4 ∷ []

abbrev after_busy : Loop
after_busy = record {
  job = record (new_job hourly) {
    last_run = 1;
    next_run = 63;
    last_dur = 2;
    running = true;
    runs = 1;
  };
  phase = passing 4;
}

ran : run (start hourly) busy ≡ some after_busy
unfolding run step
ran = refl

abbrev idle : Loop
idle = record {
  job = record (new_job hourly) {
    trigger = true;
    last_run = 1;
    next_run = 63;
    last_dur = 2;
    runs = 1;
  };
  phase = waiting;
}

requests_coalesce_example :
    ((next : Loop) × (step idle (manual 4) ≡ some next))
    × (count_events is_manual (manual 4 ∷ []) ≤ 1)
unfolding run step
requests_coalesce_example =
    requests_coalesce (record (new_job hourly) { running = true }) 1 1 3 done 4 (manual 4 ∷ []) idle
      after_busy refl refl refl

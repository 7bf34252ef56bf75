-- ===== src/Jobs.antt =====
-- internal/job/job.go: recurring jobs, each in a loop of its own. A job's loop is a state machine: an
-- event is what the loop, its ticker, an administrator or the end of the context does next, and
-- `none` means that the loop cannot do it in that state. Durations and instants are nanoseconds.
pub mod Passes
use almanaut.Base.{
  Bool, List, Option, String, [], bool_eq, false, if◌then◌else◌, list_eq, ltb, map, nat_eq, none,
  pair_eq, some, string_eq, true, ℕ, ◌++◌, ◌+◌, ◌-◌, ◌==◌, ◌∷◌,
}
use almanaut.Base.Text.{Text, text_of}

-- A minute.
abbrev pub default_timeout : ℕ
default_timeout = 60000000000

pub record Definition : Type 0 where
  pub name : String
  pub title : Text
  pub interval : ℕ
  pub timeout : ℕ

pub record Job : Type 0 where
  pub def : Definition
  -- Whether the channel of size 1 holds a manual run.
  pub trigger : Bool
  pub last_run : ℕ
  pub next_run : ℕ
  pub last_err : Text
  pub last_dur : ℕ
  pub running : Bool
  pub runs : ℕ

pub record Status : Type 0 where
  pub name : String
  pub title : Text
  pub interval : ℕ
  pub last_run : ℕ
  pub next_run : ℕ
  pub last_err : Text
  pub last_dur : ℕ
  pub running : Bool
  pub runs : ℕ

unfoldable pub status : Job → Status
status j = record {
  name = j.def.name;
  title = j.def.title;
  interval = j.def.interval;
  last_run = j.last_run;
  next_run = j.next_run;
  last_err = j.last_err;
  last_dur = j.last_dur;
  running = j.running;
  runs = j.runs;
}

abbrev pub new_job : Definition → Job
new_job d = record {
  def = d;
  trigger = false;
  last_run = 0;
  next_run = 0;
  last_err = [];
  last_dur = 0;
  running = false;
  runs = 0;
}

-- A negative interval or timeout stands for 0: the code compares both with 0 only.
unfoldable pub register : List Job → Definition → List Job
register jobs d =
    let d' : Definition = if d.timeout == 0 then record d { timeout = default_timeout } else d in
    jobs ++ new_job d' ∷ []

unfoldable pub statuses : List Job → List Status
unfolding status
statuses jobs = map status jobs

-- The send that does not wait: a second request finds the channel full.
unfoldable pub push_trigger : Job → Job
push_trigger j = record j { trigger = true }

-- Only the first job of the name is asked.
unfoldable pub trigger_job : String → List Job → List Job × Bool
unfolding push_trigger
trigger_job name [] = ([], false)
trigger_job name (j ∷ jobs) =
    let (jobs', found) = trigger_job name jobs in
    if j.def.name == name then (push_trigger j ∷ jobs, true) else (j ∷ jobs', found)

-- How a pass ends: `runSafely` turns a panic into the error "panic: …".
pub data Outcome : Type 0 where
  done : Outcome
  failed panicked : Text → Outcome

abbrev pub error_of : Outcome → Text
error_of done = []
error_of (failed e) = e
error_of (panicked p) = text_of "panic: " ++ p

-- `pass`, before and after the call of the job's function. The clock within a pass is monotonic, so
-- the end is not before the start.
unfoldable pub begin_pass : Job → Job
begin_pass j = record j { running = true }

unfoldable pub end_pass : Job → ℕ → ℕ → Outcome → Job
end_pass j start now outcome = record j {
  running = false;
  runs = j.runs + 1;
  last_run = start;
  last_dur = now - start;
  next_run = if ltb 0 j.def.interval then now + j.def.interval else j.next_run;
  last_err = error_of outcome;
}

pub data Phase : Type 0 where
  starting waiting stopped : Phase
  -- In a pass that began at the instant.
  passing : ℕ → Phase

pub record Loop : Type 0 where
  pub job : Job
  pub phase : Phase

pub data Event : Type 0 where
  -- The pass at the start; a pass on a tick; a pass on a manual run; each at its instant.
  first tick manual : ℕ → Event
  -- The pass ends at the instant.
  finish : ℕ → Outcome → Event
  -- `Trigger` is called; the context ends.
  request cancel : Event

enter : Loop → ℕ → Option Loop
unfolding begin_pass
enter l now = some (record { job = begin_pass l.job; phase = passing now })

dispatch : Phase → Loop → Event → Option Loop
unfolding enter end_pass push_trigger
dispatch starting l (first now) = enter l now
dispatch waiting l (tick now) = if ltb 0 l.job.def.interval then enter l now else none
dispatch waiting l (manual now) =
    if l.job.trigger
    then enter (record l { job = record (l.job) { trigger = false } }) now
    else none
dispatch waiting l cancel = some (record l { phase = stopped })
dispatch (passing start) l (finish now outcome) =
    some (record { job = end_pass l.job start now outcome; phase = waiting })
dispatch p l request = some (record l { job = push_trigger l.job })
dispatch p l e = none

unfoldable pub step : Loop → Event → Option Loop
unfolding dispatch
step l e = dispatch l.phase l e

abbrev pub and_then : Option Loop → (Loop → Option Loop) → Option Loop
and_then none f = none
and_then (some l) f = f l

-- Several events; `none` where one of them cannot happen.
unfoldable pub run : Loop → List Event → Option Loop
run l [] = some l
run l (e ∷ es) = and_then (step l e) (λ l'. run l' es)

abbrev pub start : Definition → Loop
start d = record { job = new_job d; phase = starting }

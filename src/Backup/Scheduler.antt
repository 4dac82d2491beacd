-- ===== src/Backup/Scheduler.antt =====
-- internal/backup/scheduler.go: the scheduler as a state machine. Its methods hold the mutex where they
-- change the state; a job runs on its own and ends in three steps, `report`, `clear` and `done`. What a
-- job finds out (`execute`), the stored schedules and the reader of cron expressions come from outside.
pub mod Flight
pub mod Drain
use kwrt_net_manager.Prelude.{
  ℕ, zero, suc, ◌+◌, ◌-◌, Bool, true, false, ◌&&◌, ◌||◌, Option, none, some, List, [], ◌∷◌, ◌++◌,
  Str, codes, str_eq, ℤ, pos, if◌then◌else◌, get_elem?, set,
}
use kwrt_net_manager.Netcfg.Service.{in_set}
use kwrt_net_manager.Backup.{Schedule, RunRecord}

-- How far a job is: at work, its record stored and published, taken out of the running ones.
pub data Phase : Type 0 where
  working reported cleared : Phase

pub record Job : Type 0 where
  pub schedule : Schedule
  pub trigger : Str
  pub phase : Phase

-- `cron` is the registry, `running` the set of schedule ids, `wg` the count of the wait group and
-- `jobs` the goroutines; `history` and `published` are the calls of the recorder and of the bus.
pub record Scheduler : Type 0 where
  pub started : Bool
  pub stopped : Bool
  pub cron : Option (List Schedule)
  pub running : List Str
  pub wg : ℕ
  pub jobs : List Job
  pub history : List RunRecord
  pub published : List RunRecord

abbrev pub new_scheduler : Scheduler
new_scheduler = record {
  started = false;
  stopped = false;
  cron = none;
  running = [];
  wg = 0;
  jobs = [];
  history = [];
  published = [];
}

-- The record that tells of a start.
abbrev pub started_record : Schedule → Str → ℤ → RunRecord
started_record s trigger now = record {
  id = [];
  schedule_id = s.id;
  channel_id = s.channel_id;
  trigger = trigger;
  status = codes "running";
  started_at = now;
  finished_at = pos 0;
  object_path = [];
  size_bytes = pos 0;
  error = [];
}

unfoldable pub launch : Schedule → Str → ℤ → Scheduler → Bool × Scheduler
launch sched trigger now s = if s.stopped || in_set s.running sched.id then (false, s) else (
  true,
  record s {
    running = sched.id ∷ s.running;
    wg = s.wg + 1;
    published = s.published ++ started_record sched trigger now ∷ [];
    jobs = s.jobs ++ record { schedule = sched; trigger = trigger; phase = working } ∷ [];
  },
)

-- The schedules that `Reload` registers.
unfoldable pub active_schedules : (Str → Bool) → List Schedule → List Schedule
active_schedules parses [] = []
active_schedules parses (x ∷ xs) =
    let rest = active_schedules parses xs in if x.enabled && parses x.cron then x ∷ rest else rest

unfoldable pub reload : (Str → Bool) → List Schedule → Scheduler → Scheduler
reload parses stored s =
    if s.started
    then record s { cron = some (active_schedules parses stored) }
    else record s { cron = none }

unfoldable pub start : (Str → Bool) → List Schedule → Scheduler → Scheduler
start parses stored s = reload parses stored (record s { started = true })

-- The part of `Stop` under the mutex; what follows waits for the jobs.
unfoldable pub stop : Scheduler → Scheduler
stop s = record s { started = false; stopped = true; cron = none }

pub data RunErr : Type 0 where
  schedule_not_found already_running : RunErr

abbrev pub run_found : ℤ → Scheduler → Option Schedule → Option RunErr × Scheduler
run_found now s none = (some schedule_not_found, s)
run_found now s (some sched) =
    let (launched, s') = launch sched (codes "manual") now s in
    (if launched then none else some already_running, s')

-- `RunNow`; `find` is `GetBackupSchedule`.
unfoldable pub run_now : (Str → Option Schedule) → Str → ℤ → Scheduler → Option RunErr × Scheduler
run_now find id now s = run_found now s (find id)

-- What the registry calls when a schedule is due; such a call can come after the registry was replaced.
unfoldable pub tick : Schedule → ℤ → Scheduler → Scheduler
tick sched now s = (launch sched (codes "schedule") now s).1

-- `delete(s.running, id)`
unfoldable pub remove_id : Str → List Str → List Str
remove_id id [] = []
remove_id id (x ∷ xs) = let rest = remove_id id xs in if str_eq x id then rest else x ∷ rest

abbrev pub in_phase : Phase → Job → Job
in_phase p j = record j { phase = p }

-- The job at `i` stores its record and publishes it.
unfoldable pub report : ℕ → Job → RunRecord → Scheduler → Scheduler
report i j rec s = record s {
  history = s.history ++ rec ∷ [];
  published = s.published ++ rec ∷ [];
  jobs = set s.jobs i (in_phase reported j);
}

-- The deferred removal from the running ones.
unfoldable pub clear : ℕ → Job → Scheduler → Scheduler
clear i j s = record s {
  running = remove_id j.schedule.id s.running;
  jobs = set s.jobs i (in_phase cleared j);
}

-- A list without the element at a place.
unfoldable pub without_at : {A : Type 0} → ℕ → List A → List A
without_at i [] = []
without_at zero (x ∷ xs) = xs
without_at (suc i) (x ∷ xs) = x ∷ without_at i xs

-- `wg.Done()`, the last thing that a job does
unfoldable pub done : ℕ → Scheduler → Scheduler
done i s = record s { wg = s.wg - 1; jobs = without_at i s.jobs }

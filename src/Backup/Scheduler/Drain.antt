-- ===== src/Backup/Scheduler/Drain.antt =====
-- internal/backup/scheduler.go, `Stop`: no job starts behind it, and when the wait for the
-- jobs is over.
use kwrt_net_manager.Prelude.{
  ℕ, zero, suc, ◌+◌, ◌↔◌, ◌≤◌, ◌≡◌, refl, ap, ◌∙◌, inl, inr, true, false, some, List, [], ◌∷◌,
  arith, ℤ, Str, codes, length, get_elem?, set, length-set, Bool-cases, Option-cases,
}
use kwrt_net_manager.Backup.{Schedule}
use kwrt_net_manager.Backup.Scheduler.{
  Phase, working, reported, cleared, Job, Scheduler, launch, reload, start, stop, run_now, tick,
  report, clear, done, in_phase, without_at,
}
use kwrt_net_manager.Backup.Scheduler.Flight.{
  IsFlight, Step, start_step, reload_step, stop_step, run_step, tick_step, report_step, clear_step,
  done_step, Step-IsFlight,
}

-- Still stopped, with no more jobs than before.
abbrev pub IsQuiet : Scheduler → Scheduler → Type 0
IsQuiet s t = (t.stopped ≡ true) × (length t.jobs ≤ length s.jobs)

launch-stopped :
    (sched : Schedule) (trigger : Str) (now : ℤ) (s : Scheduler)
    → s.stopped ≡ true
    → launch sched trigger now s ≡ (false, s)
unfolding launch
launch-stopped sched trigger now s off = rw off refl

length-without_at : {A : Type 0} (i : ℕ) (l : List A) → length (without_at i l) ≤ length l
unfolding without_at
length-without_at i [] = omega arith
length-without_at zero (x ∷ xs) = omega arith
length-without_at (suc i) (x ∷ xs) = omega (arith, length-without_at i xs)

-- A stopped scheduler starts no job, whatever is called.
stopped-IsQuiet : (s t : Scheduler) → Step s t → s.stopped ≡ true → IsQuiet s t
unfolding start stop tick reload run_now report clear done
stopped-IsQuiet s _ (start_step parses stored) off = (off, omega arith)
stopped-IsQuiet s _ (reload_step parses stored) off = elim (Bool-cases s.started) [
  | inl on ↦ rw on (off, omega arith)
  | inr idle ↦ rw idle (off, omega arith)
]
stopped-IsQuiet s _ stop_step off = (refl, omega arith)
stopped-IsQuiet s _ (run_step find id now) off = elim (Option-cases (find id)) [
  | inl missing ↦ rw missing (off, omega arith)
  | inr (sched, found) ↦
      rw (found, launch-stopped sched (codes "manual") now s off) (off, omega arith)
]
stopped-IsQuiet s _ (tick_step sched now) off =
    rw (tick, launch-stopped sched (codes "schedule") now s off) (off, omega arith)
stopped-IsQuiet s _ (report_step i j rec e w) off =
    (off, (let same = length-set s.jobs i (in_phase reported j) in omega (arith, same)))
stopped-IsQuiet s _ (clear_step i j e r) off =
    (off, (let same = length-set s.jobs i (in_phase cleared j) in omega (arith, same)))
stopped-IsQuiet s _ (done_step i j e c) off = (off, length-without_at i s.jobs)

-- Any number of steps.
pub data Runs (s : Scheduler) : Scheduler → Type 0 where
  here : Runs s s
  and_then : (t u : Scheduler) → Runs s t → Step t u → Runs s u

-- Once the scheduler is stopped it stays stopped and never has more jobs than then, whatever is
-- called and however the jobs go on.
pub Runs-IsQuiet : (s t : Scheduler) → Runs s t → s.stopped ≡ true → IsQuiet s t
Runs-IsQuiet s _ here off = (off, omega arith)
Runs-IsQuiet s _ (and_then t u r k) off =
    let (still, fewer) = Runs-IsQuiet s t r off in
    let (yet, less) = stopped-IsQuiet t u k still in (yet, omega (arith, fewer, less))

-- The steps that a job has left.
unfoldable pub left_of : Phase → ℕ
left_of working = 3
left_of reported = 2
left_of cleared = 1

unfoldable pub steps_left : List Job → ℕ
steps_left [] = 0
steps_left (j ∷ js) = left_of j.phase + steps_left js

-- Whether a step is one of a job, and how many of a run are.
unfoldable pub job_step : {s t : Scheduler} → Step s t → ℕ
job_step (start_step parses stored) = 0
job_step (reload_step parses stored) = 0
job_step stop_step = 0
job_step (run_step find id now) = 0
job_step (tick_step sched now) = 0
job_step (report_step i j rec e w) = 1
job_step (clear_step i j e r) = 1
job_step (done_step i j e c) = 1

unfoldable pub job_steps : {s t : Scheduler} → Runs s t → ℕ
job_steps here = 0
job_steps (and_then t u r k) = job_steps r + job_step k

steps_left-set :
    (l : List Job) (i : ℕ) (j k : Job)
    → get_elem? l i ≡ some j
    → steps_left (set l i k) + left_of j.phase ≡ steps_left l + left_of k.phase
unfolding steps_left
steps_left-set [] i j k e = absurd (cc)
steps_left-set (x ∷ xs) zero j k e =
    let same : x ≡ j = cc in
    let phase : left_of x.phase ≡ left_of j.phase = ap (λ y. left_of y.phase) same in
    omega (arith, phase)
steps_left-set (x ∷ xs) (suc i) j k e = omega (arith, steps_left-set xs i j k e)

steps_left-without_at :
    (l : List Job) (i : ℕ) (j : Job)
    → get_elem? l i ≡ some j
    → steps_left (without_at i l) + left_of j.phase ≡ steps_left l
unfolding steps_left without_at
steps_left-without_at [] i j e = absurd (cc)
steps_left-without_at (x ∷ xs) zero j e =
    let same : x ≡ j = cc in
    let phase : left_of x.phase ≡ left_of j.phase = ap (λ y. left_of y.phase) same in
    omega (arith, phase)
steps_left-without_at (x ∷ xs) (suc i) j e = omega (arith, steps_left-without_at xs i j e)

-- In a stopped scheduler a step of a job takes one of the steps that are left, and any other step
-- takes and adds none.
Step-steps_left :
    (s t : Scheduler) (k : Step s t)
    → s.stopped ≡ true
    → job_step k + steps_left t.jobs ≡ steps_left s.jobs
unfolding start stop tick reload run_now report clear done job_step left_of
Step-steps_left s _ (start_step parses stored) off = omega arith
Step-steps_left s _ (reload_step parses stored) off = elim (Bool-cases s.started) [
  | inl on ↦ rw on (omega arith)
  | inr idle ↦ rw idle (omega arith)
]
Step-steps_left s _ stop_step off = omega arith
Step-steps_left s _ (run_step find id now) off = elim (Option-cases (find id)) [
  | inl missing ↦ rw missing (omega arith)
  | inr (sched, found) ↦ rw (found, launch-stopped sched (codes "manual") now s off) (omega arith)
]
Step-steps_left s _ (tick_step sched now) off =
    rw (tick, launch-stopped sched (codes "schedule") now s off) (omega arith)
Step-steps_left s _ (report_step i j rec e w) off =
    let moved = steps_left-set s.jobs i j (in_phase reported j) e in
    let had : left_of j.phase ≡ 3 = ap left_of w in omega (arith, moved, had)
Step-steps_left s _ (clear_step i j e r) off =
    let moved = steps_left-set s.jobs i j (in_phase cleared j) e in
    let had : left_of j.phase ≡ 2 = ap left_of r in omega (arith, moved, had)
Step-steps_left s _ (done_step i j e c) off =
    let gone = steps_left-without_at s.jobs i j e in
    let had : left_of j.phase ≡ 1 = ap left_of c in omega (arith, gone, had)

Runs-steps_left :
    (s t : Scheduler) (r : Runs s t)
    → s.stopped ≡ true
    → job_steps r + steps_left t.jobs ≡ steps_left s.jobs
unfolding job_steps
Runs-steps_left s _ here off = omega arith
Runs-steps_left s _ (and_then t u r k) off =
    let before = Runs-steps_left s t r off in
    let after = Step-steps_left t u k (Runs-IsQuiet s t r off).0 in omega (arith, before, after)

steps_left-none : (l : List Job) → steps_left l ≡ 0 → l ≡ []
unfolding steps_left left_of
steps_left-none [] e = refl
steps_left-none (j ∷ js) e = absurd (some_left j.phase e)
  where
    some_left : (p : Phase) → left_of p + steps_left js ≡ 0 → ⊥
    some_left working h = omega (arith, h)
    some_left reported h = omega (arith, h)
    some_left cleared h = omega (arith, h)

steps_left-no_jobs : (l : List Job) → length l ≡ 0 → steps_left l ≡ 0
unfolding steps_left
steps_left-no_jobs [] e = refl
steps_left-no_jobs (j ∷ js) e = absurd (omega (arith, e))

Runs-IsFlight : (s t : Scheduler) → Runs s t → IsFlight s → IsFlight t
Runs-IsFlight s _ here h = h
Runs-IsFlight s _ (and_then t u r k) h = Step-IsFlight t u k (Runs-IsFlight s t r h)

-- In every run from a stopped scheduler with the invariant, with any calls and steps of jobs in
-- any order, the jobs take at most the steps that they had left at the start, three for a job
-- that has not reported yet; and the wait group is at zero exactly when they have taken them all.
pub Runs-drain :
    (s t : Scheduler) (r : Runs s t)
    → IsFlight s
    → s.stopped ≡ true
    → (job_steps r ≤ steps_left s.jobs) × ((job_steps r ≡ steps_left s.jobs) ↔ (t.wg ≡ 0))
Runs-drain s t r flight off =
    let taken = Runs-steps_left s t r off in
    let counted = (Runs-IsFlight s t r flight).counted in
    (
      omega (arith, taken),
      (
        (λ all.
            (let none_left : t.jobs ≡ [] = steps_left-none t.jobs (omega (arith, taken, all)) in
              counted ∙ ap length none_left)),
        (λ over.
            (let none_left = steps_left-no_jobs t.jobs (omega (arith, counted, over)) in
              omega (arith, taken, none_left))),
      ),
    )

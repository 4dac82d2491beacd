-- ===== src/Backup/Scheduler/Flight.antt =====
-- internal/backup/scheduler.go: the jobs in flight over any interleaving of calls and jobs.
use mathlib.Core.Path.{subst}
use kwrt_net_manager.Prelude.{
  Option-cases, ℕ, zero, suc, ◌≡◌, ◌≢◌, ◌⊎◌, refl, sym, ap, ◌∙◌, inl, inr, Bool, true, false, ◌||◌,
  Option, some, List, [], ◌∷◌, arith, Str, codes, str_eq, str_eq_iff, str_eq_refl, str_eq-false, ℤ,
  length, length-append, get_elem?, set, All, All-append, All-map, AllPairs, AllPairs-append_one,
  AllPairs-set, All-set, All-get_elem?, length-set, Bool-cases,
}
use kwrt_net_manager.Netcfg.Service.{in_set}
use kwrt_net_manager.Backup.{Schedule, RunRecord}
use kwrt_net_manager.Backup.Scheduler.{
  working, reported, cleared, Job, Scheduler, launch, reload, start, stop, run_now, tick, report,
  clear, done, remove_id, in_phase, without_at, new_scheduler,
}

-- Holds from the start of a job until it is taken out of the running ones.
abbrev pub IsActive : Job → Type 0
IsActive j = (j.phase ≡ working) ⊎ (j.phase ≡ reported)

abbrev pub Apart : Job → Job → Type 0
Apart a b = IsActive a → IsActive b → a.schedule.id ≢ b.schedule.id

abbrev pub IsListed : List Str → Job → Type 0
IsListed running j = IsActive j → in_set running j.schedule.id ≡ true

-- One job for a schedule at a time, each of them known as running, and all of them waited for.
pub record IsFlight (s : Scheduler) : Type 0 where
  pub apart : AllPairs Apart s.jobs
  pub listed : All (IsListed s.running) s.jobs
  pub counted : s.wg ≡ length s.jobs

-- One call or one step of a job.
pub data Step (s : Scheduler) : Scheduler → Type 0 where
  start_step : (parses : Str → Bool) (stored : List Schedule) → Step s (start parses stored s)
  reload_step : (parses : Str → Bool) (stored : List Schedule) → Step s (reload parses stored s)
  stop_step : Step s (stop s)
  run_step : (find : Str → Option Schedule) (id : Str) (now : ℤ) → Step s (run_now find id now s).1
  tick_step : (sched : Schedule) (now : ℤ) → Step s (tick sched now s)
  report_step :
      (i : ℕ) (j : Job) (rec : RunRecord)
      → get_elem? s.jobs i ≡ some j
      → j.phase ≡ working
      → Step s (report i j rec s)
  clear_step :
      (i : ℕ) (j : Job) → get_elem? s.jobs i ≡ some j → j.phase ≡ reported → Step s (clear i j s)
  done_step :
      (i : ℕ) (j : Job) → get_elem? s.jobs i ≡ some j → j.phase ≡ cleared → Step s (done i s)

pub data Reached : Scheduler → Type 0 where
  at_first : Reached new_scheduler
  step : (s t : Scheduler) → Reached s → Step s t → Reached t

launch-IsFlight :
    (sched : Schedule) (trigger : Str) (now : ℤ) (s : Scheduler)
    → IsFlight s
    → IsFlight (launch sched trigger now s).1
unfolding launch in_set
launch-IsFlight sched trigger now s h =
    let working_job : Job = record { schedule = sched; trigger = trigger; phase = working } in
    elim (Bool-cases (s.stopped || in_set s.running sched.id)) [
      | inl refused ↦ rw refused h
      | inr free ↦ rw free (record {
        apart = AllPairs-append_one Apart s.jobs _ h.apart (
            All-map s.jobs
              (λ x known on _ same.
                absurd (ground (arith, known on, free, ap (in_set s.running) same)))
              h.listed);
        listed =
            All-append (IsListed (sched.id ∷ s.running)) s.jobs _
              (All-map s.jobs (λ x known on. ground (arith, known on)) h.listed)
              (λ on. ground (arith, str_eq_refl sched.id), tt);
        counted =
            let grown = length-append s.jobs (working_job ∷ []) in omega (arith, h.counted, grown);
      })
    ]

module _ {A : Type 0} (R : A → A → Type 0) where
  All-without_at : (P : A → Type 0) (l : List A) (i : ℕ) → All P l → All P (without_at i l)
  unfolding without_at
  All-without_at P [] i h = tt
  All-without_at P (x ∷ xs) zero h = h.1
  All-without_at P (x ∷ xs) (suc i) h = (h.0, All-without_at P xs i h.1)

  AllPairs-without_at : (l : List A) (i : ℕ) → AllPairs R l → AllPairs R (without_at i l)
  unfolding without_at
  AllPairs-without_at [] i h = tt
  AllPairs-without_at (x ∷ xs) zero h = h.1
  AllPairs-without_at (x ∷ xs) (suc i) h =
      (All-without_at (R x) xs i h.0, AllPairs-without_at xs i h.1)

  length-without_at :
      (l : List A) (i : ℕ) (x : A)
      → get_elem? l i ≡ some x
      → length l ≡ suc (length (without_at i l))
  unfolding without_at
  length-without_at [] i x e = absurd (cc)
  length-without_at (y ∷ ys) zero x e = refl
  length-without_at (y ∷ ys) (suc i) x e = rw (length-without_at ys i x e) refl

report-IsFlight :
    (i : ℕ) (j : Job) (rec : RunRecord) (s : Scheduler)
    → get_elem? s.jobs i ≡ some j
    → j.phase ≡ working
    → IsFlight s
    → IsFlight (report i j rec s)
unfolding report
report-IsFlight i j rec s e w h = record {
  apart =
      AllPairs-set Apart s.jobs i j (in_phase reported j) e (λ z k _ on. k (inl w) on)
        (λ z k on _. k on (inl w)) h.apart;
  listed =
      All-set (IsListed s.running) s.jobs i (in_phase reported j) h.listed
        (λ _. All-get_elem? (IsListed s.running) s.jobs i j e h.listed (inl w));
  counted = h.counted ∙ sym (length-set s.jobs i (in_phase reported j));
}

remove_id-other :
    (id other : Str) (l : List Str)
    → id ≢ other
    → in_set l other ≡ true
    → in_set (remove_id id l) other ≡ true
unfolding remove_id in_set
remove_id-other id other [] ne h = h
remove_id-other id other (x ∷ xs) ne h = elim (Bool-cases (str_eq x id)) [
  | inl e ↦
      let same : x ≡ id = (str_eq_iff x id).0 e in
      let differ : str_eq x other ≡ false = str_eq-false x other (λ q. ne (cc)) in
      rw e (remove_id-other id other xs ne (ground (arith)))
  | inr e ↦ rw e (ground (arith, remove_id-other id other xs ne))
]

not_active : ¬ ((cleared ≡ working) ⊎ (cleared ≡ reported))
not_active (inl e) = absurd (cc)
not_active (inr e) = absurd (cc)

All-both :
    {P Q T : Job → Type 0} (xs : List Job)
    → ((x : Job) → P x → Q x → T x)
    → All P xs
    → All Q xs
    → All T xs
All-both [] f h k = tt
All-both (x ∷ xs) f h k = (f x h.0 k.0, All-both xs f h.1 k.1)

-- What is active beside an active job is still known when that one is taken out.
clear-IsListed :
    (running : List Str) (l : List Job) (i : ℕ) (j : Job)
    → get_elem? l i ≡ some j
    → IsActive j
    → AllPairs Apart l
    → All (IsListed running) l
    → All (IsListed (remove_id j.schedule.id running)) (set l i (in_phase cleared j))
clear-IsListed running [] i j e on apart known = tt
clear-IsListed running (x ∷ xs) zero j e on apart known =
    let same : x ≡ j = cc in
    let away : All (Apart j) xs = subst (λ q. All (Apart q) xs) same apart.0 in
    (
      λ active. absurd (not_active active),
      All-both xs (λ z far here z_on. remove_id-other _ _ running (far on z_on) (here z_on)) away
          known.1,
    )
clear-IsListed running (x ∷ xs) (suc i) j e on apart known =
    let far : Apart x j = All-get_elem? (Apart x) xs i j e apart.0 in
    (
      λ x_on. remove_id-other _ _ running (λ same. far x_on on (sym same)) (known.0 x_on),
      clear-IsListed running xs i j e on apart.1 known.1,
    )

clear-IsFlight :
    (i : ℕ) (j : Job) (s : Scheduler)
    → get_elem? s.jobs i ≡ some j
    → j.phase ≡ reported
    → IsFlight s
    → IsFlight (clear i j s)
unfolding clear
clear-IsFlight i j s e r h = record {
  apart =
      AllPairs-set Apart s.jobs i j (in_phase cleared j) e (λ z k on _. absurd (not_active on))
        (λ z k _ on. absurd (not_active on)) h.apart;
  listed = clear-IsListed s.running s.jobs i j e (inr r) h.apart h.listed;
  counted = h.counted ∙ sym (length-set s.jobs i (in_phase cleared j));
}

done-IsFlight :
    (i : ℕ) (j : Job) (s : Scheduler)
    → get_elem? s.jobs i ≡ some j
    → IsFlight s
    → IsFlight (done i s)
unfolding done
done-IsFlight i j s e h = record {
  apart = AllPairs-without_at Apart s.jobs i h.apart;
  listed = All-without_at Apart (IsListed s.running) s.jobs i h.listed;
  counted = let fewer = length-without_at Apart s.jobs i j e in omega (arith, h.counted, fewer);
}

run_now-IsFlight :
    (find : Str → Option Schedule) (id : Str) (now : ℤ) (s : Scheduler)
    → IsFlight s
    → IsFlight (run_now find id now s).1
unfolding run_now
run_now-IsFlight find id now s h = elim (Option-cases (find id)) [
  | inl missing ↦ rw missing h
  | inr (sched, found) ↦ rw found (launch-IsFlight sched (codes "manual") now s h)
]

reload-IsFlight :
    (parses : Str → Bool) (stored : List Schedule) (s : Scheduler)
    → IsFlight s
    → IsFlight (reload parses stored s)
unfolding reload
reload-IsFlight parses stored s h = elim (Bool-cases s.started) [
  | inl on ↦ rw on (record { apart = h.apart; listed = h.listed; counted = h.counted })
  | inr off ↦ rw off (record { apart = h.apart; listed = h.listed; counted = h.counted })
]

pub Step-IsFlight : (s t : Scheduler) → Step s t → IsFlight s → IsFlight t
unfolding start stop tick
Step-IsFlight s _ (start_step parses stored) h =
    reload-IsFlight parses stored (record s { started = true })
      (record { apart = h.apart; listed = h.listed; counted = h.counted })
Step-IsFlight s _ (reload_step parses stored) h = reload-IsFlight parses stored s h
Step-IsFlight s _ stop_step h = record { apart = h.apart; listed = h.listed; counted = h.counted }
Step-IsFlight s _ (run_step find id now) h = run_now-IsFlight find id now s h
Step-IsFlight s _ (tick_step sched now) h = launch-IsFlight sched (codes "schedule") now s h
Step-IsFlight s _ (report_step i j rec e w) h = report-IsFlight i j rec s e w h
Step-IsFlight s _ (clear_step i j e r) h = clear-IsFlight i j s e r h
Step-IsFlight s _ (done_step i j e c) h = done-IsFlight i j s e h

-- In every state that the scheduler of backups reaches, over any interleaving of starts, reloads,
-- stops, manual runs, due schedules and steps of the jobs, no two jobs from their launch until
-- they are taken out of the running ones are for the same schedule, each of them is known as
-- running, and the wait group counts the jobs.
pub Reached-IsFlight : (s : Scheduler) → Reached s → IsFlight s
Reached-IsFlight _ at_first = record { apart = tt; listed = tt; counted = refl }
Reached-IsFlight _ (step s t r k) = Step-IsFlight s t k (Reached-IsFlight s r)

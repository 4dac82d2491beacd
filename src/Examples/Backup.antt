-- ===== src/Examples/Backup.antt =====
-- internal/backup at concrete values.
use kwrt_net_manager.Prelude.{
  ℕ, ◌≡◌, ◌≤◌, ◌↔◌, str_eq, refl, Bool, true, false, Option, none, some, List, [], ◌∷◌, Str, codes,
  pos, All,
}
use kwrt_net_manager.Backup.{Channel, Schedule, kind_s3}
use kwrt_net_manager.Backup.Validate.{
  merge_channel_secrets, redact_secrets, has_secret, IsBare, merge_channel_secrets-redact_secrets,
}
use kwrt_net_manager.Backup.Path.{clean_key}
use kwrt_net_manager.Backup.Path.Clean.{IsKey, clean_key-IsKey}
use kwrt_net_manager.Backup.Retention.{Object, matching, apply_retention}
use kwrt_net_manager.Backup.Retention.Laws.{Split, apply_retention-Split}
use kwrt_net_manager.Backup.Scheduler.{
  working, reported, cleared, Job, Scheduler, new_scheduler, started_record, launch, start, stop,
  reload, run_now, tick, report, clear, done, in_phase,
}
use kwrt_net_manager.Netcfg.Service.{in_set}
use kwrt_net_manager.Backup.Scheduler.Flight.{
  IsFlight, Reached, at_first, step, start_step, stop_step, run_step, tick_step, report_step,
  clear_step, done_step, Step-IsFlight, Reached-IsFlight,
}
use kwrt_net_manager.Backup.Scheduler.Drain.{
  IsQuiet, Runs, here, and_then, job_steps, steps_left, Runs-IsQuiet, Runs-drain,
}

abbrev bucket : Channel
bucket = record {
  id = codes "ch_1";
  name = codes "off-site";
  kind = kind_s3;
  s3 = some (record {
    endpoint = codes "s3.example.org";
    region = codes "auto";
    bucket = codes "router";
    access_key_id = codes "key";
    secret_access_key = codes "secret";
    prefix = [];
    use_ssl = true;
    path_style = false;
  });
  webdav = none;
  created_at = pos 0;
  updated_at = pos 0;
}

merge_channel_secrets-redact_secrets_example :
    (merge_channel_secrets bucket (redact_secrets bucket) ≡ bucket)
    × IsBare (redact_secrets bucket)
    × (has_secret (redact_secrets bucket) ≡ false)
merge_channel_secrets-redact_secrets_example = merge_channel_secrets-redact_secrets bucket

clean_key-IsKey_example : IsKey (codes "//a///b/") (clean_key (codes "//a///b/"))
clean_key-IsKey_example = clean_key-IsKey (codes "//a///b/")

abbrev backup_of : Str → ℕ → Object
backup_of key modified = record { key = key; size = 10; modified = modified }

abbrev listing : List Object
listing =
    backup_of (codes "b/2.zip") 20
    ∷ backup_of (codes "b/1.zip") 10
    ∷ backup_of (codes "b/3.zip") 30
    ∷ []

abbrev everything : Str → Bool
everything _ = true

abbrev list_all : Str → Option (List Object)
list_all _ = some listing

apply_retention-Split_example :
    Split 2
      (matching everything listing)
      (apply_retention (pos 2) (codes "b/") (some everything) list_all)
    × All
        (λ g. everything g.key ≡ true)
        (apply_retention (pos 2) (codes "b/") (some everything) list_all)
apply_retention-Split_example =
    apply_retention-Split 2 (codes "b/") everything list_all listing refl refl refl

abbrev nightly : Schedule
nightly = record {
  id = codes "sch_1";
  name = codes "nightly";
  enabled = true;
  cron = codes "0 3 * * *";
  channel_id = codes "ch_1";
  path_template = [];
  retention = pos 2;
  created_at = pos 0;
  updated_at = pos 0;
}

abbrev find_nightly : Str → Option Schedule
find_nightly _ = some nightly

abbrev parses_all : Str → Bool
parses_all _ = true

abbrev s1 : Scheduler
s1 = start parses_all (nightly ∷ []) new_scheduler

abbrev s2 : Scheduler
s2 = tick nightly (pos 100) s1

abbrev s3 : Scheduler
s3 = (run_now find_nightly (codes "sch_1") (pos 101) s2).1

s3_reached : Reached s3
s3_reached =
    (step s2 s3
      (step s1 s2 (step new_scheduler s1 at_first (start_step parses_all (nightly ∷ [])))
        (tick_step nightly (pos 100)))
      (run_step find_nightly (codes "sch_1") (pos 101)))

Reached-IsFlight_example : IsFlight s3
Reached-IsFlight_example = Reached-IsFlight s3 s3_reached

abbrev s4 : Scheduler
s4 = stop s3

abbrev s5 : Scheduler
s5 = tick nightly (pos 102) s4

s4_stopped : s4.stopped ≡ true
unfolding stop
s4_stopped = refl

Runs-IsQuiet_example : IsQuiet s4 s5
Runs-IsQuiet_example =
    Runs-IsQuiet s4 s5 (and_then s4 s5 here (tick_step nightly (pos 102))) s4_stopped

-- The job that runs behind the stop: it reports, is cleared and ends, with a tick in between.
abbrev at_work : Job
at_work = record { schedule = nightly; trigger = codes "schedule"; phase = working }

abbrev s6 : Scheduler
s6 = report 0 at_work (started_record nightly (codes "schedule") (pos 100)) s5

abbrev s7 : Scheduler
s7 = clear 0 (in_phase reported at_work) s6

abbrev s8 : Scheduler
s8 = done 0 s7

last_steps : Runs s4 s8
unfolding start reload tick run_now stop launch report clear in_set str_eq
last_steps =
    and_then s7 s8
      (and_then s6 s7
        (and_then s5 s6 (and_then s4 s5 here (tick_step nightly (pos 102)))
          (report_step 0 at_work (started_record nightly (codes "schedule") (pos 100)) refl refl))
        (clear_step 0 (in_phase reported at_work) refl refl))
      (done_step 0 (in_phase cleared at_work) refl refl)

Runs-drain_example :
    (job_steps last_steps ≤ steps_left s4.jobs)
    × ((job_steps last_steps ≡ steps_left s4.jobs) ↔ (s8.wg ≡ 0))
Runs-drain_example =
    Runs-drain s4 s8 last_steps (Step-IsFlight s3 s4 stop_step (Reached-IsFlight s3 s3_reached))
      s4_stopped

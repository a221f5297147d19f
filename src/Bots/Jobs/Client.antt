-- ===== src/Bots/Jobs/Client.antt =====
-- `build_bot_job` and `K8sJobClient` of src/twin/bots/jobs.py. What the cluster answers is a parameter:
-- `answer i` is what `read_namespaced_job_status` gives at the look `i` of `wait_terminal`.
use Prim.Native.String.{String}
use fakery.Prelude.{
  ℕ, zero, suc, ◌+◌, ◌*◌, ◌≡◌, ◌⊎◌, ap, Bool, true, false, Option, none, some, List, [], ◌∷◌, Text,
  inl, inr,
}
use fakery.Core.Errors.{Error}
use fakery.Core.Action.{Result, ok, err}
use fakery.Core.Waiting.{Look, found, again, End, returned, expired, while_before, looks}
use fakery.Bots.Models.{Instant, seconds}
use fakery.Bots.Jobs.{JobResult, completed, failed, missing, timeout, bot_job_name}

abbrev pub job_poll_s : ℕ
job_poll_s = 10

abbrev pub job_startup_grace_s : ℕ
job_startup_grace_s = 600

-- `meeting_max_minutes * SECONDS_PER_MINUTE + JOB_STARTUP_GRACE_S`
abbrev pub job_timeout_s : ℕ → ℕ
job_timeout_s meeting_max_minutes = meeting_max_minutes * 60 + job_startup_grace_s

-- The manifest of a job, with its texts that are not the same for every run.
pub record BotJob : Type 0 where
  pub name : Text
  pub job_namespace : Text
  pub bot_label : Text
  pub backoff_limit : ℕ
  pub ttl_seconds_after_finished : ℕ
  pub active_deadline_seconds : ℕ
  pub termination_grace_period_seconds : ℕ
  pub image : Text
  pub command : List String
  pub argument : Text
  pub secret : String
  pub memory_request : String
  pub memory_limit : String
  pub cpu_request : String
  pub cpu_limit : String

unfoldable pub build_bot_job : (Text → Text) → Text → Text → Text → ℕ → BotJob
build_bot_job lower bot_id image job_namespace meeting_max_minutes = record {
  name = bot_job_name lower bot_id;
  job_namespace = job_namespace;
  bot_label = bot_id;
  backoff_limit = 0;
  ttl_seconds_after_finished = 300;
  active_deadline_seconds = job_timeout_s meeting_max_minutes;
  termination_grace_period_seconds = 120;
  image = image;
  command = "dumb-init" ∷ "--" ∷ "xvfb-run" ∷ "-a" ∷ "python" ∷ "-m" ∷ "twin.bot_run" ∷ [];
  argument = bot_id;
  secret = "twin-secrets";
  memory_request = "2Gi";
  memory_limit = "3Gi";
  cpu_request = "500m";
  cpu_limit = "2";
}

-- What the cluster says of a job: its status, that there is none, or another exception.
pub data Answer : Type 0 where
  status : (succeeded failed : ℕ) → Answer
  not_there : Answer
  refused : Error → Answer

-- `get_job`, on what `read_namespaced_job` gives: whether there is a job.
unfoldable pub get_job : Answer → Result Bool
get_job (status s f) = ok true
get_job not_there = ok false
get_job (refused e) = err e

-- What one answer says to `wait_terminal`. A count of zero is false.
unfoldable pub heard : Answer → Option (Result JobResult)
heard (status (suc s) f) = some (ok completed)
heard (status zero (suc f)) = some (ok failed)
heard (status zero zero) = none
heard not_there = some (ok missing)
heard (refused e) = some (err e)

module _ (time : ℕ → Instant) (answer : ℕ → Answer) where
  unfoldable pub look_at_job : ℕ → Unit {0} → Look (Result JobResult) (Unit {0})
  unfolding heard
  look_at_job i u = elim (heard (answer i)) [ none ↦ again tt | some r ↦ found r ]

  abbrev end_of_wait : Option (End (Result JobResult) (Unit {0})) → Option (Result JobResult)
  end_of_wait none = none
  end_of_wait (some (returned i r)) = some r
  end_of_wait (some (expired i u)) = some (ok timeout)

  unfoldable pub wait_terminal : ℕ → Option (Result JobResult)
  wait_terminal timeout_s = end_of_wait (
      while_before time (time 0 + seconds timeout_s) look_at_job
        (looks (seconds timeout_s) (seconds job_poll_s)) 0 tt)

  of_end :
      (end : Option (End (Result JobResult) (Unit {0}))) (r : Result JobResult)
      → end_of_wait end ≡ some r
      → ((n : ℕ) × (end ≡ some (returned n r))) ⊎ (r ≡ ok timeout)
  of_end none r h = absurd (cc h)
  of_end (some (returned n s)) r h =
      let same : s ≡ r = cc h in inl (n, ap (λ x. some (returned n x)) same)
  of_end (some (expired n u)) r h = inr (cc h)

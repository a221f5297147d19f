-- ===== src/Bots/Jobs.antt =====
-- src/twin/bots/jobs.py: the name of a run's Kubernetes job, and what its end says of the run. `lower` is
-- `str.lower`.
pub mod Names
pub mod Client
use Prim.Native.String.{String}
use fakery.Prelude.{
  ℕ, Bool, true, false, ◌&&◌, ◌||◌, not, Option, none, some, List, [], ◌∷◌, ◌++◌, map, Text,
  if◌then◌else◌, ◌==◌, leb, take,
}
use fakery.Bots.MeetingUrl.{rstrip}

abbrev pub job_max_name : ℕ
job_max_name = 63

abbrev pub job_name_prefix : Text
job_name_prefix = b'b' ∷ b'o' ∷ b't' ∷ b'r' ∷ b'u' ∷ b'n' ∷ []

-- `[a-z0-9-]`
abbrev pub is_slug_char : ℕ → Bool
is_slug_char c = (leb b'a' c && leb c b'z') || (leb b'0' c && leb c b'9') || (c == b'-')

-- `re.sub(r"[^a-z0-9-]", "-", …)`
abbrev pub slug_char : ℕ → ℕ
slug_char c = if is_slug_char c then c else b'-'

-- `str.lstrip("-")`
abbrev pub lstrip_dash : Text → Text
lstrip_dash [] = []
lstrip_dash (c ∷ t) = if c == b'-' then lstrip_dash t else c ∷ t

module _ (lower : Text → Text) where
  unfoldable pub bot_job_name : Text → Text
  bot_job_name bot_id =
      let slug = rstrip b'-' (lstrip_dash (map slug_char (lower bot_id))) in
      rstrip b'-' (take job_max_name (job_name_prefix ++ b'-' ∷ slug))

-- What `wait_terminal` returns of a job.
pub data JobResult : Type 0 where
  completed failed missing timeout : JobResult

-- `resolve_job_outcome`: the code that fails the run, none where the run is over.
unfoldable pub resolve_job_outcome : JobResult → Bool → Option String
resolve_job_outcome result true = none
resolve_job_outcome timeout false = some "job-timeout"
resolve_job_outcome result false = some "job-failed"

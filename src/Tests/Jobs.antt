-- ===== src/Tests/Jobs.antt =====
-- The theorem on job names at one identifier.
use fakery.Prelude.{[], ◌∷◌}
use fakery.Bots.MeetingUrl.{lower}
use fakery.Bots.Jobs.{bot_job_name}
use fakery.Bots.Jobs.Names.{IsLabel, bot_job_name-IsLabel}

bot_job_name-IsLabel_example : IsLabel (bot_job_name lower (b'B' ∷ b'_' ∷ b'7' ∷ b'-' ∷ []))
bot_job_name-IsLabel_example = bot_job_name-IsLabel lower (b'B' ∷ b'_' ∷ b'7' ∷ b'-' ∷ [])

-- ===== src/ProjectType/Waiting.antt =====
-- When the wait for a command ends.
use cluster_runner_jie.Prelude.{ℕ, Bool, ◌||◌, Option}
use cluster_runner_jie.ProjectType.{Round, is_late}

-- The kill event is set before the round, or the time is over.
abbrev pub is_over : Option ℕ → Round → Bool
is_over deadline r = r.is_killed || is_late deadline r.now

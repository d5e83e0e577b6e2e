-- ===== src/Slave/SubjobExecutor/Examples.antt =====
-- Two subjobs, whose second commands fail; the names of directories write numbers as tallies.
use cluster_runner_jie.Prelude.{
  ℕ, zero, suc, true, Option, none, some, String, List, [], ◌∷◌, ◌≡◌, refl, ◌==◌, if◌then◌else◌,
}
use Prim.Native.Char.{char, code, nul}
use cluster_runner_jie.Prelude.Int.{pos}
use cluster_runner_jie.Common.BuildArtifact.{Names}
use cluster_runner_jie.Slave.SubjobExecutor.{AtomResult, Runner, execute_atoms}
use cluster_runner_jie.Slave.SubjobExecutor.Artifacts.{Subjobs, failures, results_of}

abbrev tally : ℕ → String → String
tally zero s = s
tally (suc n) s = String.◌∷◌ nul (tally n s)

abbrev tally_length : String → ℕ
tally_length String.[] = 0
tally_length (String.◌∷◌ c s) = suc (tally_length s)

abbrev one_more : Option (ℕ × ℕ) → Option (ℕ × ℕ)
one_more none = none
one_more (some (s, a)) = some (suc s, a)

abbrev match_tallies : String → Option (ℕ × ℕ)
match_tallies String.[] = none
match_tallies (String.◌∷◌ c s) =
    let rest = match_tallies s in if code c == 0 then one_more rest else some (0, tally_length s)

abbrev format_tallies : ℕ → ℕ → String
format_tallies s a = tally s (String.◌∷◌ (char 95 tt) (tally a ""))

abbrev names : Names
names = record { format = format_tallies; has_prefix = λ d. true; match_ids = match_tallies }

abbrev subs : Subjobs
subs = (0, "true" ∷ "false" ∷ []) ∷ (1, "true" ∷ "false" ∷ []) ∷ []

abbrev runner : Runner
runner r = pos r.atom_id

abbrev results : List AtomResult
results = results_of runner 7 3 10 subs

-- The second command of each subjob fails.
two_failures : failures results ≡ (0, 1) ∷ (1, 1) ∷ []
unfolding execute_atoms
two_failures = refl

-- ===== src/Retention/Run.antt =====
-- A whole run of the retention plugin: Cleanup with its cadence (plugins/retention.go).
--
-- `find` is what an evaluation reads of the world.
pub mod Outcomes
use tinyland_cleanup.Prelude.{if◌then◌else◌, none, not}
use tinyland_cleanup.Retention.Cleanup.{CleanEnv, Policy, clean_loop, due}
use tinyland_cleanup.Retention.Pass.{Findings, evaluate}
use tinyland_cleanup.Records.{CleanupResult, no_result}
use tinyland_cleanup.Clock.{Time}

-- what Cleanup leaves; `last_run` is p.lastRun
pub record RetentionRun (W : Type 0) : Type 0 where
  pub world : W
  pub result : CleanupResult
  pub last_run : Time

unfoldable pub cleanup :
    {W A : Type 0} → CleanEnv W A → Policy → (W → W × Findings) → Time → W → RetentionRun W
cleanup env p find last_run w =
    let (w1, now) = env.clock w in
    let (is_due, last) = due p.config.interval last_run now in
    let (w2, found) = find w1 in
    let (w3, r) = clean_loop env p (evaluate p found).candidates none no_result w2 in
    if not is_due
    then record { world = w1; result = no_result; last_run = last }
    else record { world = w3; result = r; last_run = last }

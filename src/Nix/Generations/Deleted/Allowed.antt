-- ===== src/Nix/Generations/Deleted/Allowed.antt =====
-- What the commands that delete generations are given.
use tinyland_cleanup.Nix.Generations.Deleted.{GenerationConfig, GenerationEnv}
use tinyland_cleanup.Nix.Generations.Minimum.{IsDeletable}
use tinyland_cleanup.Nix.Generations.{Generation, GenerationPolicy}
use tinyland_cleanup.Prelude.{All, List, String, some, ◌≡◌}
use tinyland_cleanup.Accounting.{CleanupTarget}
use tinyland_cleanup.Level.{Level}
use tinyland_cleanup.Clock.{Time}

-- A version that is the version of a deletable target.
pub record IsAllowed (p : GenerationPolicy) (gs : List Generation) (now : Time) (v : String)
    : Type 0 where
  pub target : CleanupTarget
  pub same : v ≡ target.version
  pub deletable : IsDeletable p gs now target

module _ {W : Type 0} (env : GenerationEnv W) (cfg : GenerationConfig) where
  -- What a deletion by policy may do to the world: nothing, listing the generations, or then one
  -- command with the versions of deletable generations, for some reading of the clock.
  pub data Deletion (p : GenerationPolicy) (w : W) : W → Type 0 where
    leaves : {w' : W} → w' ≡ w → Deletion p w w'
    lists : {w' : W} → w' ≡ (env.list w).0 → Deletion p w w'
    deletes :
        {w' : W} (gs : List Generation) (vs : List String)
        → (env.list w).1 ≡ some gs
        → All (IsAllowed p gs (env.now (env.list w).0)) vs
        → w' ≡ (env.delete vs (env.list w).0).0
        → Deletion p w w'

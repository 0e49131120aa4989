-- ===== src/Retention/Pass/Sources.antt =====
-- Where the candidates of a pass come from: the entries of the temp roots and the Cargo directories of
-- an evaluation, with what decide sees of each (plugins/retention.go).
use tinyland_cleanup.Prelude.{In, List, String, [], inl, inr, none, refl, some, true, ◌∷◌, ◌≡◌, All}
use tinyland_cleanup.Retention.Cleanup.{Policy, busy_process}
use tinyland_cleanup.Retention.Decide.{Rule, Seen, cargo_targets, tmp_agents}
use tinyland_cleanup.Retention.Pass.{CargoDir, CargoRoot, Findings, TmpEntry, TmpRoot, is_inspected}

-- Of a temp root's entry decide sees what was found there, but no build: tmp_agents passes none.
abbrev pub seen_of_entry : TmpEntry → Seen
seen_of_entry e = record e.seen { busy = none }

-- Of a Cargo directory it sees what was found there, with the build that one of the processes is.
abbrev pub seen_of_dir : Policy → Findings → CargoDir → Seen
seen_of_dir p f d = record d.seen {
  busy = busy_process f.processes p.config.cargo_targets.busy_processes;
}

-- What decide sees for a rule at a path: an enabled rule's entry among those that were found.
pub data SeenAt (p : Policy) (f : Findings) : Rule → String → Seen → Type 0 where
  tmp_entry :
      (root : TmpRoot) (es : List TmpEntry) (e : TmpEntry)
      → p.config.tmp_agents.enabled ≡ true
      → In root f.tmp_roots
      → root.entries ≡ some es
      → In e es
      → is_inspected p e ≡ true
      → SeenAt p f tmp_agents e.path (seen_of_entry e)
  cargo_dir :
      (root : CargoRoot) (d : CargoDir)
      → p.config.cargo_targets.enabled ≡ true
      → In root f.cargo_roots
      → In d root.dirs
      → d.is_dir ≡ true
      → SeenAt p f cargo_targets d.path (seen_of_dir p f d)

All-self : {A : Type 0} (Has : A → Type 0) (xs : List A) → ((x : A) → In x xs → Has x) → All Has xs
All-self Has [] h = tt
All-self Has (x ∷ xs) h = (h x (inl refl), All-self Has xs (λ y i. h y (inr i)))

-- What the entries of the temp roots give, for the loops over them.
abbrev pub EntriesSeen : Policy → Findings → TmpRoot → Type 0
EntriesSeen p f root =
    (es : List TmpEntry)
    → root.entries ≡ some es
    → All (λ e. is_inspected p e ≡ true → SeenAt p f tmp_agents e.path (seen_of_entry e)) es

pub entries_seen :
    (p : Policy) (f : Findings)
    → p.config.tmp_agents.enabled ≡ true
    → All (EntriesSeen p f) f.tmp_roots
entries_seen p f on =
    All-self (EntriesSeen p f) f.tmp_roots
      (λ root r es e. All-self _ es (λ x i inspected. tmp_entry root es x on r e i inspected))

abbrev pub DirsSeen : Policy → Findings → List CargoDir → Type 0
DirsSeen p f ds =
    All (λ d. d.is_dir ≡ true → SeenAt p f cargo_targets d.path (seen_of_dir p f d)) ds

pub dirs_seen :
    (p : Policy) (f : Findings)
    → p.config.cargo_targets.enabled ≡ true
    → All (λ (root : CargoRoot). DirsSeen p f root.dirs) f.cargo_roots
dirs_seen p f on =
    All-self (λ (root : CargoRoot). DirsSeen p f root.dirs) f.cargo_roots
      (λ root r. All-self _ root.dirs (λ d i is_dir. cargo_dir root d on r i is_dir))

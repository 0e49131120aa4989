-- ===== src/Cycle/Around.antt =====
-- The steps of a cycle around its plugin loop.
-- What the steps around the plugin loop leave alone.
use tinyland_cleanup.Cycle.Recording.{
  engage_backoffs, engage_byte_backoff, engage_inode_backoff, put_backoff_seconds,
  put_inode_progress, put_totals, record_bytes, record_inodes, save_if_dirty,
}
use tinyland_cleanup.Records.{ByteProgressRecord, CleanupState, InodeProgressRecord}
use tinyland_cleanup.Cycle.Run.{finish_cycle}
use tinyland_cleanup.Prelude.{
  ◌&&◌, Bool, String, if_both, ltb, not, refl, str_eq, true, ◌==◌, ◌||◌, ◌∙◌, ◌≡◌,
}
use tinyland_cleanup.Decide.Measured.{update_host_free_after-plugins}
use tinyland_cleanup.Decide.{Daemon}
use tinyland_cleanup.Cycle.{Context, Env, Locals, is_measured}
use tinyland_cleanup.Level.{is_none, parse_level}
use tinyland_cleanup.Cycle.Plugins.{measure_after}
use tinyland_cleanup.State.{
  byte_no_progress_pending, inode_no_progress_count, put_bytes, put_inodes, record_byte_progress,
  record_inode_progress,
}
use tinyland_cleanup.Report.{CycleReport}

pub record Same {W : Type 0} (l l' : Locals W) : Type 0 where
  pub reports : l'.report.plugins ≡ l.report.plugins
  pub freed : l'.ladder_freed ≡ l.ladder_freed
  pub records : l'.state.plugins ≡ l.state.plugins

Same-refl : {W : Type 0} (l : Locals W) → Same l l
Same-refl l = record { reports = refl; freed = refl; records = refl }

Same-trans : {W : Type 0} {l m n : Locals W} → Same l m → Same m n → Same l n
Same-trans h k = record {
  reports = k.reports ∙ h.reports;
  freed = k.freed ∙ h.freed;
  records = k.records ∙ h.records;
}

pub save-Same : {W : Type 0} (env : Env W) (l : Locals W) → Same l (save_if_dirty env l)
unfolding save_if_dirty
save-Same env l =
    if_both (Same l) l.state_dirty _ _
      (λ _. record { reports = refl; freed = refl; records = refl }) λ _. Same-refl l

put_bytes_records :
    (s : CleanupState) (path : String) (r : ByteProgressRecord)
    → (put_bytes s path r).plugins ≡ s.plugins
put_bytes_records s path r =
    if_both (λ (t : CleanupState). t.plugins ≡ s.plugins) (str_eq path "") _ _ (λ _. refl) λ _. refl

put_inodes_records :
    (s : CleanupState) (path : String) (r : InodeProgressRecord)
    → (put_inodes s path r).plugins ≡ s.plugins
put_inodes_records s path r =
    if_both (λ (t : CleanupState). t.plugins ≡ s.plugins) (str_eq path "") _ _ (λ _. refl) λ _. refl

module _ {W : Type 0} (env : Env W) (x : Context) (was : Bool) where
  bytes-Same : (l : Locals W) → Same l (record_bytes x was l)
  unfolding record_bytes record_byte_progress
  bytes-Same l =
      if_both (Same l)
        (x.daemon.dry_run
          || not x.state_ok
          || not (is_measured x.before)
          || not (str_eq l.report.host_free_error ""))
        _ _ (λ _. Same-refl l)
        λ _.
          if_both (Same l)
            (not (is_none (parse_level l.report.host_byte_level))
              || was
              || byte_no_progress_pending l.state l.report.monitor_path)
            _ _
            (λ _. record {
              reports = refl;
              freed = refl;
              records = put_bytes_records l.state l.report.monitor_path _;
            })
            λ _. Same-refl l

  inode_put-Same : (improved : Bool) (l : Locals W) → Same l (put_inode_progress x improved l)
  unfolding record_inode_progress
  inode_put-Same improved l = record {
    reports = refl;
    freed = refl;
    records = put_inodes_records l.state l.report.monitor_path _;
  }

  inodes-Same : (l : Locals W) → Same l (record_inodes x l)
  unfolding record_inodes
  inodes-Same l =
      if_both (Same l) (x.daemon.dry_run || not x.state_ok || l.report.host_inodes_total == 0) _ _
        (λ _. Same-refl l)
        λ _.
          if_both (Same l) (not (is_none (parse_level l.report.max_inode_level))) _ _
            (λ _. inode_put-Same _ l)
            λ _.
              if_both (Same l) (ltb 0 (inode_no_progress_count l.state l.report.monitor_path)) _ _
                (λ _. inode_put-Same true l) λ _. Same-refl l

  measure-Same : (l : Locals W) → Same l (measure_after env x (put_totals l))
  measure-Same l = record {
    reports = update_host_free_after-plugins x.daemon.config (put_totals l).report x.before _;
    freed = refl;
    records = refl;
  }

  pub finish-Same : (l : Locals W) → Same l (finish_cycle env x was l)
  unfolding finish_cycle
  finish-Same l =
      let m = measure_after env x (put_totals l) in
      Same-trans (measure-Same l)
        (Same-trans (inodes-Same m) (Same-trans (bytes-Same (record_inodes x m)) (save-Same env _)))

byte_engage_plugins :
    (d : Daemon) (ok : Bool) (q : CycleReport) → (engage_byte_backoff d ok q).plugins ≡ q.plugins
unfolding engage_byte_backoff
byte_engage_plugins d ok q =
    if_both (λ (p : CycleReport). p.plugins ≡ q.plugins) (not q.forced_level && not d.dry_run && ok)
      _ _ (λ _. refl) λ _. refl

pub engage_plugins :
    (d : Daemon) (ok : Bool) (r : CycleReport) → (engage_backoffs d ok r).plugins ≡ r.plugins
unfolding engage_backoffs engage_inode_backoff put_backoff_seconds
engage_plugins d ok r =
    let r' = engage_inode_backoff d.config r in
    if_both (λ (q : CycleReport). q.plugins ≡ r.plugins) (engage_byte_backoff d ok r').byte_backoff
      _ _ (λ _. byte_engage_plugins d ok r') λ _. byte_engage_plugins d ok r'

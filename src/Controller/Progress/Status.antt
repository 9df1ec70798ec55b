-- ===== src/Controller/Progress/Status.antt =====
-- `setCondition`, `updateStatus` and `execScript` of proxmoxcluster_controller.go where the server
-- stores what is written and the scripts succeed.
use multiprox.Prelude.{◌≡◌, refl, ◌∙◌, sym, ◌∷◌, [], String, Bool, Option, none, ℕ}
use multiprox.Api.Cluster.{Phase, ProxmoxCluster, ProxmoxClusterStatus}
use multiprox.Errors.{Error, Result, ok}
use multiprox.Controller.Kube.{
  Key, key_of, get_cluster, update_cluster, update_cluster_status, History, Run, Pass, Kube,
}
use multiprox.Controller.Pass.{◌>>=◌, request, the_cluster, modify}
use multiprox.Controller.Pass.Keeps.{Retries, IsRetry, last, again}
use multiprox.Controller.Status.{
  set_resource_version, set_phase, new_condition, with_condition, set_condition, write_status,
  update_status, fetch_cluster, exec_script,
}
use multiprox.Controller.Steps.Completes.{
  Responds, exec_script-success, script_output, script_calls,
}
use multiprox.Controller.Progress.{Claim, Does}

-- the cluster that a server holds after these calls, which held this one before them
unfoldable pub stored : ProxmoxCluster → History → ProxmoxCluster
stored before [] = before
stored before (update_cluster c ∷ h) = c
stored before (update_cluster_status c ∷ h) = c
stored before (_ ∷ h) = stored before h

module _ (k : Kube) where
  pub Does-set_condition :
      {J K : Claim} (type : String) (status : Bool) (true_reason false_reason message : String)
      → ((s : Run)
          → J s
          → K (record s {
            cluster =
                with_condition k
                  (k.server.now s.history)
                  (new_condition type status true_reason false_reason message
                    s.cluster.meta.generation)
                  s.cluster;
          }))
      → Does J (set_condition k type status true_reason false_reason message) (λ _. K)
  unfolding set_condition modify
  Does-set_condition type status true_reason false_reason message g = record {
    run = λ s j. (
      tt,
      record s {
        cluster =
            with_condition k (k.server.now s.history)
              (new_condition type status true_reason false_reason message s.cluster.meta.generation)
              s.cluster;
      },
      refl,
      g s j,
    );
  }

  -- The server answers a read of the cluster with what was written last, and takes every write.
  pub record Stores (before : ProxmoxCluster) : Type 0 where
    pub fetched : (h : History) (key : Key) → k.server.on_get_cluster h key ≡ ok (stored before h)
    pub written :
        (h : History) (c : ProxmoxCluster)
        → (c' : ProxmoxCluster) × (k.server.on_update_cluster h c ≡ ok c')
    pub status_written :
        (h : History) (c : ProxmoxCluster)
        → (c' : ProxmoxCluster) × (k.server.on_update_cluster_status h c ≡ ok c')

  pub retried :
      (f : Pass (Unit {0})) (s s' : Run) (out : Result (Unit {0}) × Run)
      → Retries f s out
      → f s ≡ (ok tt, s')
      → out ≡ (ok tt, s')
  retried f s s' out (last p) e = sym p ∙ e
  retried f s s' out (again p c r) e = absurd (cc)

  module _ {before : ProxmoxCluster} (stores : Stores before) where
    -- the calls of a status write
    abbrev pub status_calls : ProxmoxClusterStatus → Key → History → History
    status_calls desired key h =
        update_cluster_status (record (stored before h) { status = desired }) ∷ get_cluster key ∷ h

    write_status-stored :
        (desired : ProxmoxClusterStatus) (key : Key) (s : Run)
        → (v : String) × (write_status k desired key s ≡ (
          ok tt,
          record {
            history = status_calls desired key s.history;
            cluster = set_resource_version v s.cluster;
          },
        ))
    unfolding write_status fetch_cluster request modify ◌>>=◌
    write_status-stored desired key s =
        let (c, e) =
          stores.status_written (get_cluster key ∷ s.history)
            (record (stored before s.history) { status = desired }) in
        (c.meta.resource_version, rw (stores.fetched s.history key, e) refl)

    pub Does-update_status :
        (retry : IsRetry k.retry_on_conflict) {J K : Claim} (phase : Phase)
        → ((v : String) (s : Run)
            → J s
            → K (record {
              history =
                  status_calls (set_phase phase s.cluster).status (key_of s.cluster.meta) s.history;
              cluster = set_resource_version v (set_phase phase s.cluster);
            }))
        → Does J (update_status k phase) (λ _. K)
    unfolding update_status modify the_cluster ◌>>=◌
    Does-update_status retry phase g = record {
      run = λ s j.
          let c = set_phase phase s.cluster in
          let r = record s { cluster = c } in
          let f = write_status k c.status (key_of c.meta) in
          let (v, e) = write_status-stored c.status (key_of c.meta) r in
          (
            tt,
            record {
              history = status_calls c.status (key_of c.meta) s.history;
              cluster = set_resource_version v c;
            },
            retried f r _ _ (retry f r) e,
            g v s j,
          );
    }

  pub Does-exec_script :
      (responds : Responds k) {J : Claim} {K : String × Option Error → Claim} (i : ℕ)
      (script : String)
      → ((s : Run)
          → J s
          → K
              (script_output k s.cluster i script s.history, none)
              (record s { history = script_calls s.cluster i script s.history }))
      → Does J (exec_script k i script) K
  Does-exec_script responds i script g = record {
    run = λ s j. (_, _, exec_script-success k responds i script s, g s j);
  }

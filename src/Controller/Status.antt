-- ===== src/Controller/Status.antt =====
-- `updateStatus`, `setCondition`, `addFinalizer`, `removeFinalizer` and `execScript` of
-- proxmoxcluster_controller.go.
pub mod Stable
use multiprox.Prelude.{
  ℕ, String, Bool, true, false, not, Option, none, some, List, [], ◌∷◌, ◌==◌, if◌then◌else◌,
}
use multiprox.Prelude.Int.{ℤ}
use multiprox.Text.Strings.{◌+++◌}
use multiprox.Text.Decimal.{show_ℕ}
use multiprox.Api.Meta.{Time, true_status, false_status, Condition}
use multiprox.Api.Cluster.{Phase, ProxmoxClusterStatus, ProxmoxCluster}
use multiprox.Api.Pod.{PodPhase, running, pending, succeeded, failed, unknown, Pod, show_phase}
use multiprox.Errors.{Error, Result, ok, err, failure, wrapped, is_not_found}
use multiprox.Exec
use multiprox.Exec.{Request}
use multiprox.Controller.Kube.{
  Key, key_of, Call, get_cluster, update_cluster, update_cluster_status, get_pod, exec, Run, Pass,
  Kube,
}
use multiprox.Controller.Pass.{
  pure, raise, lift, attempt, request, the_cluster, modify, ◌>>=◌, ◌>>◌,
}

abbrev pub finalizer_name : String
finalizer_name = "proxmox.multiprox.io/finalizer"

abbrev pub set_resource_version : String → ProxmoxCluster → ProxmoxCluster
set_resource_version v c = record c { meta = record c.meta { resource_version = v } }

abbrev pub set_finalizers : List String → ProxmoxCluster → ProxmoxCluster
set_finalizers fs c = record c { meta = record c.meta { finalizers = fs } }

abbrev pub set_phase : Phase → ProxmoxCluster → ProxmoxCluster
set_phase phase c = record c {
  status = record c.status { phase = phase; observed_generation = c.meta.generation };
}

abbrev reason_or_unknown : String → String
reason_or_unknown reason = if reason == "" then "Unknown" else reason

-- what `setCondition` hands to `meta.SetStatusCondition`
abbrev pub new_condition : String → Bool → String → String → String → ℤ → Condition
new_condition type status true_reason false_reason message generation = record {
  type = type;
  status = if status then true_status else false_status;
  observed_generation = generation;
  last_transition_time = 0;
  reason = reason_or_unknown (if status then true_reason else false_reason);
  message = message;
}

abbrev pub is_running : PodPhase → Bool
is_running running = true
is_running pending = false
is_running succeeded = false
is_running failed = false
is_running unknown = false

module _ (k : Kube) where
  unfoldable pub fetch_cluster : Key → Pass ProxmoxCluster
  fetch_cluster key = request (get_cluster key) (λ h. k.server.on_get_cluster h key)

  -- the body of the retry: fetch the latest object and put the computed status on it
  unfoldable pub write_status : ProxmoxClusterStatus → Key → Pass (Unit {0})
  write_status desired key = do
    latest ← fetch_cluster key
    let updated = record latest { status = desired }
    stored ←
        request (update_cluster_status updated) (λ h. k.server.on_update_cluster_status h updated)
    modify (set_resource_version stored.meta.resource_version)

  unfoldable pub update_status : Phase → Pass (Unit {0})
  update_status phase = do
    modify (set_phase phase)
    cluster ← the_cluster
    k.retry_on_conflict (write_status cluster.status (key_of cluster.meta))

  abbrev pub with_condition : Time → Condition → ProxmoxCluster → ProxmoxCluster
  with_condition now c cluster = record cluster {
    status = record cluster.status {
      conditions = k.set_status_condition now cluster.status.conditions c;
    };
  }

  unfoldable pub set_condition : String → Bool → String → String → String → Pass (Unit {0})
  set_condition type status true_reason false_reason message s =
      let c =
        new_condition type status true_reason false_reason message s.cluster.meta.generation in
      modify (with_condition (k.server.now s.history) c) s

  abbrev pub write_added : ProxmoxCluster → List String × Bool → Pass (Unit {0})
  write_added latest (finalizers, false) = pure tt
  write_added latest (finalizers, true) = do
    let updated = set_finalizers finalizers latest
    stored ← request (update_cluster updated) (λ h. k.server.on_update_cluster h updated)
    modify (set_resource_version stored.meta.resource_version)
    modify (set_finalizers stored.meta.finalizers)

  -- the body of the retry in `addFinalizer`
  unfoldable pub write_finalizer : Key → Pass (Unit {0})
  write_finalizer key = do
    latest ← fetch_cluster key
    write_added latest (k.add_finalizer latest.meta.finalizers finalizer_name)

  unfoldable pub add_finalizer : Pass (Unit {0})
  add_finalizer = do
    cluster ← the_cluster
    k.retry_on_conflict (write_finalizer (key_of cluster.meta))

  abbrev pub write_removed : ProxmoxCluster → List String × Bool → Pass (Unit {0})
  write_removed latest (finalizers, false) = pure tt
  write_removed latest (finalizers, true) = do
    let updated = set_finalizers finalizers latest
    _ ← request (update_cluster updated) (λ h. k.server.on_update_cluster h updated)
    pure tt

  -- the body of the retry in `removeFinalizer`, behind the fetch: an object that is gone is no error
  abbrev pub drop_finalizer : Result ProxmoxCluster → Pass (Unit {0})
  drop_finalizer (err e) = if is_not_found e then pure tt else raise e
  drop_finalizer (ok latest) =
      write_removed latest (k.remove_finalizer latest.meta.finalizers finalizer_name)

  unfoldable pub remove_finalizer : Pass (Unit {0})
  remove_finalizer = do
    cluster ← the_cluster
    k.retry_on_conflict
        (do latest ← attempt (fetch_cluster (key_of cluster.meta)); drop_finalizer latest)

  abbrev pub script_request : String → String → String → Request
  script_request namespace pod script = record {
    has_rest_config = k.has_rest_config;
    has_kube_client = k.has_kube_client;
    namespace = namespace;
    pod = pod;
    container = "pve";
    command = "bash" ∷ script ∷ [];
    stdin = "";
  }

  -- `exec.Run`, whose output and error both come back
  abbrev pub run_script : String → String → String → Pass (String × Option Error)
  run_script namespace pod script =
      request (exec (record { namespace = namespace; name = pod }) ("bash" ∷ script ∷ []))
        (λ h. ok (Exec.run (k.server.executor h) (script_request namespace pod script)))

  abbrev pub run_in_pod : String → String → String → Result Pod → Pass (String × Option Error)
  run_in_pod namespace pod script (err e) = pure ("", some (wrapped ("get pod " +++ pod) e))
  run_in_pod namespace pod script (ok found) =
      if is_running found.phase
      then run_script namespace pod script
      else pure (
        "",
        some (failure ("pod " +++ pod +++ " is " +++ show_phase found.phase +++ ", not Running")),
      )

  abbrev fetch_pod : Key → Pass Pod
  fetch_pod key = request (get_pod key) (λ h. k.server.on_get_pod h key)

  unfoldable pub exec_script : ℕ → String → Pass (String × Option Error)
  exec_script ordinal script = do
    cluster ← the_cluster
    let pod = cluster.meta.name +++ "-" +++ show_ℕ ordinal
    found ← attempt (fetch_pod (record { namespace = cluster.meta.namespace; name = pod }))
    run_in_pod cluster.meta.namespace pod script found

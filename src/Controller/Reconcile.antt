-- ===== src/Controller/Reconcile.antt =====
-- `Reconcile` and `reconcileDelete` of proxmoxcluster_controller.go.
pub mod Conditions
pub mod Fetched
pub mod Frame
pub mod Permits
pub mod Shipped
pub mod Prunes
pub mod Joins
pub mod Rejects
pub mod Releases
pub mod Waits
pub mod Ready
use multiprox.Prelude.{
  String, Bool, true, false, not, Option, none, some, List, [], ◌∷◌, if◌then◌else◌,
}
use multiprox.Prelude.Int.{ℤ, eqb_ℤ}
use multiprox.Text.Strings.{◌+++◌}
use multiprox.Text.Decimal.{show_ℤ}
use multiprox.Api.Meta.{Time}
use multiprox.Api.Cluster
use multiprox.Api.Cluster.{
  CephSpec, ProxmoxCluster, condition_statefulset_ready, condition_cluster_initialized,
  condition_all_nodes_joined, condition_quorum_healthy, condition_ceph_initialized,
}
use multiprox.Ceph.Validate.{CephError, validate_ceph, error_text}
use multiprox.Workload.Objects.{ConfigMap, StatefulSet}
use multiprox.Workload.Services.{headless_service, ui_service}
use multiprox.Workload.ConfigMap.{config_map}
use multiprox.Workload.StatefulSet.{stateful_set}
use multiprox.Errors.{Error, Result, ok, err, failure, is_not_found}
use multiprox.Controller.Kube.{Key, key_of, Call, get_stateful_set, Run, Pass, Kube}
use multiprox.Controller.Pass.{
  pure, raise, lift, attempt, with_context, request, deferred, the_cluster, modify, ◌>>=◌, ◌>>◌,
}
use multiprox.Controller.Status.{
  finalizer_name, fetch_cluster, update_status, set_condition, add_finalizer, remove_finalizer,
}
use multiprox.Controller.Ensure.{ensure_service, ensure_config_map, ensure_stateful_set}
use multiprox.Controller.Nodes.{reconcile_nodes}
use multiprox.Controller.Steps.{
  Requeue, requeue_short, requeue_long, initialize, join, reconcile_ceph,
}

module _ (k : Kube) where
  abbrev pub has_condition : String → ProxmoxCluster → Bool
  has_condition type cluster = k.is_status_condition_true cluster.status.conditions type

  -- step 11
  unfoldable pub become_ready : Pass Requeue
  become_ready = do
    set_condition k condition_quorum_healthy true "QuorumOK" "" "Corosync quorum is healthy"
    update_status k Cluster.ready
    pure requeue_long

  abbrev pub after_ceph : Option Requeue → Pass Requeue
  after_ceph none = become_ready
  after_ceph (some requeue) = pure requeue

  -- steps 10 and 11
  abbrev pub reconcile_storage : Option CephSpec → Pass Requeue
  reconcile_storage none = become_ready
  reconcile_storage (some ceph) = do waiting ← reconcile_ceph k ceph; after_ceph waiting

  -- steps 8 to 11
  unfoldable pub build_cluster : Pass Requeue
  build_cluster = do
    cluster ← the_cluster
    if not (has_condition condition_cluster_initialized cluster)
        then initialize k
        else if not (has_condition condition_all_nodes_joined cluster)
        then join k
        else reconcile_storage cluster.spec.ceph

  abbrev pub wait_for_pods : Pass Requeue
  wait_for_pods = do update_status k Cluster.pending; pure requeue_short

  -- step 7: the gate on the pods
  abbrev pub gate : Result StatefulSet → Pass Requeue
  gate (err e) = if is_not_found e then wait_for_pods else raise e
  gate (ok sts) = do
    cluster ← the_cluster
    set_condition k condition_statefulset_ready (eqb_ℤ sts.ready_replicas cluster.spec.nodes)
        "AllPodsReady" "NotAllPodsReady"
        (show_ℤ sts.ready_replicas +++ "/" +++ show_ℤ cluster.spec.nodes +++ " pods ready")
    if eqb_ℤ sts.ready_replicas cluster.spec.nodes then build_cluster else wait_for_pods

  -- steps 7 to 11
  unfoldable pub converge : Pass Requeue
  converge = do
    cluster ← the_cluster
    let key = key_of cluster.meta
    found ← attempt (request (get_stateful_set key) (λ h. k.server.on_get_stateful_set h key))
    gate found

  -- the panic of `renderCorosync`, which the controller's runtime turns into an error
  abbrev pub ensure_built : Option ConfigMap → Pass (Unit {0})
  ensure_built none = raise (failure "panic in renderCorosync")
  ensure_built (some cm) = with_context "configmap" (ensure_config_map k cm)

  -- steps 4 to 6
  unfoldable pub provision : Pass (Unit {0})
  provision = do
    cluster ← the_cluster
    with_context "headless service" (ensure_service k (headless_service cluster))
    with_context "ui service" (ensure_service k (ui_service cluster))
    ensure_built (config_map cluster)
    with_context "statefulset" (ensure_stateful_set k (stateful_set cluster))

  -- step 3: nothing is provisioned for a spec that can never converge
  unfoldable pub reject : CephError → Pass Requeue
  reject e = do
    set_condition k condition_ceph_initialized false "" "InvalidCephSpec" (error_text e)
    update_status k Cluster.failed
    pure none

  abbrev pub validated : Option CephError → Pass Requeue
  validated (some e) = reject e
  validated none = do provision; deferred converge (reconcile_nodes k)

  abbrev pub ensure_finalizer : List String → Pass (Unit {0})
  ensure_finalizer finalizers =
      if k.contains_finalizer finalizers finalizer_name then pure tt else add_finalizer k

  unfoldable pub reconcile_delete : Pass Requeue
  reconcile_delete = do remove_finalizer k; pure none

  -- `DeletionTimestamp.IsZero()`
  abbrev pub handle : Option Time → Pass Requeue
  handle (some _) = reconcile_delete
  handle none = do
    cluster ← the_cluster
    ensure_finalizer cluster.meta.finalizers
    validated (validate_ceph cluster)

  abbrev pub start_from : Result ProxmoxCluster → Pass Requeue
  start_from (err e) = if is_not_found e then pure none else raise e
  start_from (ok cluster) = do modify (λ _. cluster); handle cluster.meta.deletion_timestamp

  unfoldable pub reconcile : Key → Pass Requeue
  reconcile key = do fetched ← attempt (fetch_cluster k key); start_from fetched

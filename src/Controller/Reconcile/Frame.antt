-- ===== src/Controller/Reconcile/Frame.antt =====
-- Steps 1 to 6 of `Reconcile` in proxmoxcluster_controller.go, and the refresh of the nodes, keep
-- what the rest of the pass keeps.
use multiprox.Prelude.{String, Option, none, some, List}
use multiprox.Api.Meta.{Time}
use multiprox.Api.Cluster
use multiprox.Api.Cluster.{
  Phase, CephSpec, CephStatus, ProxmoxCluster, condition_statefulset_ready,
  condition_cluster_initialized, condition_all_nodes_joined, condition_quorum_healthy,
  condition_ceph_initialized,
}
use multiprox.Ceph.Validate.{CephError, validate_ceph}
use multiprox.Workload.Objects.{ConfigMap}
use multiprox.Workload.ConfigMap.{config_map}
use multiprox.Errors.{ok}
use multiprox.Controller.Kube.{Call, Kube}
use multiprox.Controller.Pass.Keeps.{
  view, Assertion, Keeps, Stable, IsRetry, Keeps-if, Keeps-bind, Keeps-modify, Keeps-with_context,
  Stable-deferred,
}
use multiprox.Controller.Status.{finalizer_name}
use multiprox.Controller.Status.Stable.{
  IsPlain, MayExec, Stable-pure, Stable-raise, Stable-bind, Stable-the_cluster,
  Stable-add_finalizer, Stable-remove_finalizer,
}
use multiprox.Controller.Ensure.Stable.{
  Stable-ensure_service, Stable-ensure_config_map, Stable-ensure_stateful_set,
}
use multiprox.Controller.Nodes.Stable.{MayPrune, Stable-reconcile_nodes}
use multiprox.Controller.Steps.Keeps.{MaySet, MayWait, Stable-set_condition, Stable-write}
use multiprox.Controller.Reconcile.{
  converge, ensure_built, provision, reject, validated, ensure_finalizer, reconcile_delete, handle,
  start_from,
}

-- what the steps around `converge` may do
pub record Frame (k : Kube) (P : Call → Type 0) (J : Assertion) : Type 0 where
  pub retry : IsRetry k.retry_on_conflict
  pub plain : (c : Call) → IsPlain c → P c
  pub wait : MayWait P J
  pub reject : MaySet k J condition_ceph_initialized
  pub inventory : MayExec P "/scripts/cluster-inventory.sh"
  pub prune : MayPrune P J
  pub converge : Stable P J (converge k)

module _ (k : Kube) {P : Call → Type 0} {J : Assertion} (frame : Frame k P J) where
  Stable-ensure_built : (cm : Option ConfigMap) → Stable P J (ensure_built k cm)
  Stable-ensure_built none = Stable-raise _
  Stable-ensure_built (some cm) =
      Keeps-with_context "configmap" (Stable-ensure_config_map k frame.plain cm)

  Stable-provision : Stable P J (provision k)
  unfolding provision
  Stable-provision = Stable-bind Stable-the_cluster (λ cluster.
      Stable-bind (Keeps-with_context "headless service" (Stable-ensure_service k frame.plain _))
        (λ _.
          Stable-bind (Keeps-with_context "ui service" (Stable-ensure_service k frame.plain _))
            (λ _. Stable-bind (Stable-ensure_built (config_map cluster)) (λ _.
              Keeps-with_context "statefulset" (Stable-ensure_stateful_set k frame.plain _)))))

  Stable-reject : (e : CephError) → Stable P J (reject k e)
  unfolding reject
  Stable-reject e =
      Stable-bind (Stable-set_condition k frame.retry frame.plain _ _ _ _ _ frame.reject) (λ _.
        Stable-bind
          (Stable-write k frame.retry frame.plain Cluster.failed (frame.wait Cluster.failed tt))
          (λ _. Stable-pure none))

  Stable-validated : (e : Option CephError) → Stable P J (validated k e)
  Stable-validated (some e) = Stable-reject e
  Stable-validated none = Stable-bind Stable-provision (λ _.
      Stable-deferred frame.converge
        (Stable-reconcile_nodes k frame.plain frame.inventory frame.prune))

  Stable-ensure_finalizer : (finalizers : List String) → Stable P J (ensure_finalizer k finalizers)
  Stable-ensure_finalizer finalizers =
      Keeps-if (k.contains_finalizer finalizers finalizer_name) (λ _. Stable-pure tt)
        (λ _. Stable-add_finalizer k frame.retry (λ key. frame.plain _ tt) (λ c. frame.plain _ tt))

  Stable-handle : (deleted : Option Time) → Stable P J (handle k deleted)
  unfolding reconcile_delete
  Stable-handle (some _) =
      Stable-bind
        (Stable-remove_finalizer k frame.retry (λ key. frame.plain _ tt) (λ c. frame.plain _ tt))
        (λ _. Stable-pure none)
  Stable-handle none = Stable-bind Stable-the_cluster (λ cluster.
      Stable-bind (Stable-ensure_finalizer cluster.meta.finalizers)
        (λ _. Stable-validated (validate_ceph cluster)))

  -- a pass that starts where `J` holds of the fetched cluster
  pub Keeps-start_from :
      (cluster : ProxmoxCluster)
      → J (view cluster)
      → Keeps P (λ _. Unit) (start_from k (ok cluster)) (λ _. J) J
  Keeps-start_from cluster j =
      Keeps-bind (Keeps-modify {K = J} (λ _. cluster) (λ c _. j))
        (λ _. Stable-handle cluster.meta.deletion_timestamp)

-- ===== src/Controller/Reconcile/Ready.antt =====
-- `Reconcile` of proxmoxcluster_controller.go: what a cluster that is called Ready has behind it.
pub mod Built
use multiprox.Prelude.{
  ℕ, ◌≡◌, ◌∙◌, ap, refl, sym, subst, String, Bool, true, false, not, Option, none, some, List, [],
  ◌∷◌, All, All-of, ◌==◌, if◌then◌else◌,
}
use multiprox.Prelude.Int.{eqb_ℤ}
use multiprox.Api.Meta.{Time, Condition, true_status, false_status}
use multiprox.Node.Projection.{is_true}
use multiprox.Api.Cluster
use multiprox.Api.Cluster.{
  Phase, CephSpec, CephStatus, ProxmoxCluster, condition_statefulset_ready,
  condition_cluster_initialized, condition_all_nodes_joined, condition_quorum_healthy,
  condition_ceph_initialized,
}
use multiprox.Ceph.Plan.{CephStep, init, mon, mgr, osd, pool, status, ceph_plan, CephTask}
use multiprox.Ceph.Status.{ceph_usable}
use multiprox.Ceph.Validate.{CephError, validate_ceph}
use multiprox.Workload.Objects.{StatefulSet, ConfigMap}
use multiprox.Workload.ConfigMap.{config_map}
use multiprox.Errors.{Error, Result, ok, err, is_not_found}
use multiprox.Controller.Kube.{Key, Call, update_cluster_status, get_cluster, Run, Pass, Kube}
use multiprox.Controller.Pass.{request, attempt, ◌>>=◌}
use multiprox.Controller.Pass.Keeps.{
  View, view, Assertion, Keeps, Stable, Keeps-relax, Keeps-pure, Keeps-if, Keeps-bind,
  Keeps-bind_seen, Keeps-the_cluster, Keeps-modify, Keeps-with_context, Stable-request,
  Stable-attempt, Stable-deferred,
}
use multiprox.Controller.Status.{fetch_cluster, finalizer_name, set_condition}
use multiprox.Controller.Status.Stable.{
  IsPlain, MayExec, MayWrite, Stable-pure, Stable-raise, Stable-bind, Stable-the_cluster,
  Keeps-set_condition, Stable-add_finalizer, Stable-remove_finalizer,
}
use multiprox.Controller.Ensure.Stable.{
  Stable-ensure_service, Stable-ensure_config_map, Stable-ensure_stateful_set,
}
use multiprox.Controller.Nodes.Stable.{Stable-reconcile_nodes}
use multiprox.Controller.Steps.{ceph_step_condition, reconcile_ceph, requeue_long}
use multiprox.Controller.Steps.Keeps.{
  MaySet, MayWait, IsWaiting, Stable-set_condition, Stable-write, Stable-initialize, Stable-join,
}
use multiprox.Controller.Steps.Usable.{IsUsable, DoneUsable, Keeps-reconcile_ceph}
use multiprox.Controller.Reconcile.{
  has_condition, become_ready, after_ceph, reconcile_storage, build_cluster, wait_for_pods, gate,
  converge, ensure_built, provision, reject, validated, ensure_finalizer, reconcile_delete, handle,
  start_from, reconcile,
}
use multiprox.Controller.Reconcile.Frame.{Frame, Keeps-start_from}
use multiprox.Controller.Reconcile.Fetched.{fresh_run, reconcile-All}
use multiprox.Controller.Reconcile.Conditions.{
  Laws, IsTrue, IsTrue-other, condition_set, is_true_of_not,
}
use multiprox.Controller.Reconcile.Ready.Built.{ReadyIsBuilt, P, Spec, plain, wait, Stable-converge}

Ready-Frame :
    (k : Kube) (laws : Laws k) (fetched : ProxmoxCluster)
    → Frame k (P k laws fetched) (Spec k laws fetched)
Ready-Frame k laws fetched = record {
  retry = laws.retry;
  plain = plain k laws fetched;
  wait = wait k laws fetched (Spec k laws fetched);
  reject = λ v now c q spec. spec;
  inventory = λ key. tt;
  prune = λ cluster key spec p. tt;
  converge = Stable-converge k laws fetched;
}

-- Whatever the API server answers, and where the libraries behave as documented: a pass writes a
-- status with the phase Ready for the cluster it fetched only if the server has, at some point,
-- answered a read of a StatefulSet of that name with as many ready pods as the fetched spec has
-- nodes; and that status has the conditions StatefulSetReady, ClusterInitialized and AllNodesJoined
-- true, and a usable Ceph where the fetched spec asks for Ceph.
pub reconcile-ReadyIsBuilt :
    (k : Kube) (key : Key) (cluster nothing : ProxmoxCluster)
    → Laws k
    → k.server.on_get_cluster [] key ≡ ok cluster
    → All (ReadyIsBuilt k cluster) (reconcile k key (fresh_run nothing)).1.history
reconcile-ReadyIsBuilt k key cluster nothing laws fetched =
    reconcile-All k key cluster nothing fetched tt
      (Keeps-start_from k (Ready-Frame k laws cluster) cluster (refl, refl))

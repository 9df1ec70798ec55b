-- ===== src/Controller/Examples.antt =====
-- Runs of the reconciler on concrete servers.
pub mod Loops
pub mod Passes
use multiprox.Prelude.{[], false, ◌∷◌, arith, ◌≡◌, refl, none, some, All}
use multiprox.Prelude.Int.{pos, eqb_ℤ}
use multiprox.Api.Cluster.{ProxmoxCluster}
use multiprox.Api.Samples.{cluster_of, sample_ceph}
use multiprox.Ceph.Validate.{even_monitors, validate_ceph}
use multiprox.Workload.Objects.{StatefulSet}
use multiprox.Controller.Kube.{Key, History}
use multiprox.Controller.Samples.{contains_in, sample-ready, sample-IsRemoval}
use multiprox.Controller.Status.{finalizer_name, add_finalizer, write_finalizer}
use multiprox.Controller.Reconcile.Waits.{OnlyWaits, reconcile-OnlyWaits}
use multiprox.Controller.Reconcile.Releases.{AsksNoRequeue, OnlyReleases, reconcile-OnlyReleases}
use multiprox.Controller.Samples.{sample_kube, sample-Laws, built_cluster, is_true_in}
use multiprox.Errors.{ok}
use multiprox.Workload.ConfigMap.{config_map, render_corosync, corosync_nodes}
use multiprox.Controller.Pass.{
  pure, raise, lift, attempt, with_context, request, deferred, the_cluster, modify, current_time,
  ◌>>=◌,
}
use multiprox.Exec.{run}
use multiprox.Text.Decimal.{show_ℕ, show_ℤ}
use multiprox.Ceph.Plan.{ceph_plan, status_task}
use multiprox.Ceph.Status.{parse_ceph_status, ceph_usable}
use multiprox.Ceph.Counts.{effective_mon_count, effective_mgr_count}
use multiprox.Controller.Status.{
  exec_script, fetch_cluster, set_condition, update_status, write_status,
}
use multiprox.Controller.Ensure.{ensure_service, ensure_config_map, ensure_stateful_set}
use multiprox.Controller.Steps.Counts.{Joins, join_nodes-JoinedOf, JoinedOf}
use multiprox.Controller.Steps.Ran.{Ends}
use multiprox.Controller.Steps.{later_indices}
use multiprox.Controller.Steps.{
  join_nodes, requeue_long, reconcile_ceph, walk_plan, ceph_step_condition,
}
use multiprox.Controller.Samples.{retry_steps, set_condition_in}
use multiprox.Controller.Reconcile.{reconcile, provision, converge, build_cluster, become_ready}
use multiprox.Controller.Reconcile.Fetched.{fresh_run}
use multiprox.Controller.Reconcile.Ready.{reconcile-ReadyIsBuilt}
use multiprox.Controller.Reconcile.Ready.Built.{ReadyIsBuilt}
use multiprox.Controller.Reconcile.Shipped.{RunsShipped, reconcile-RunsShipped}
use multiprox.Controller.Reconcile.Prunes.{PrunesRemoved, reconcile-PrunesRemoved}
use multiprox.Controller.Reconcile.Joins.{JoinsNothing, reconcile-JoinsNothing}
use multiprox.Controller.Reconcile.Rejects.{OnlyReports, reconcile-OnlyReports}
use multiprox.Controller.Reconcile.Rejects.Reported.{IfOk, Rejected}

abbrev lab : Key
lab = record { namespace = "pve"; name = "lab" }

abbrev three_nodes : ProxmoxCluster
three_nodes = built_cluster (pos 3)

reconcile-ReadyIsBuilt_example :
    All
      (ReadyIsBuilt (sample_kube three_nodes (pos 3)) three_nodes)
      (reconcile (sample_kube three_nodes (pos 3)) lab (fresh_run three_nodes)).1.history
unfolding sample_kube
reconcile-ReadyIsBuilt_example =
    reconcile-ReadyIsBuilt (sample_kube three_nodes (pos 3)) lab three_nodes three_nodes
      (sample-Laws three_nodes (pos 3)) refl

reconcile-RunsShipped_example :
    All
      (RunsShipped three_nodes)
      (reconcile (sample_kube three_nodes (pos 3)) lab (fresh_run three_nodes)).1.history
unfolding sample_kube
reconcile-RunsShipped_example =
    reconcile-RunsShipped (sample_kube three_nodes (pos 3)) lab three_nodes three_nodes
      (sample-Laws three_nodes (pos 3)) refl

reconcile-PrunesRemoved_example :
    All
      (PrunesRemoved three_nodes)
      (reconcile (sample_kube three_nodes (pos 3)) lab (fresh_run three_nodes)).1.history
unfolding sample_kube
reconcile-PrunesRemoved_example =
    reconcile-PrunesRemoved (sample_kube three_nodes (pos 3)) lab three_nodes three_nodes
      (sample-Laws three_nodes (pos 3)) refl

reconcile-JoinsNothing_example :
    All JoinsNothing
      (reconcile (sample_kube three_nodes (pos 3)) lab (fresh_run three_nodes)).1.history
unfolding sample_kube is_true_in
reconcile-JoinsNothing_example =
    reconcile-JoinsNothing (sample_kube three_nodes (pos 3)) lab three_nodes three_nodes
      (sample-Laws three_nodes (pos 3)) refl refl

-- two monitors can lose their quorum to one failure
abbrev even_cluster : ProxmoxCluster
even_cluster =
    let c = cluster_of (pos 3) in
    record c { spec = record c.spec { ceph = some (record sample_ceph { mon_count = pos 2 }) } }

reconcile-OnlyReports_example :
    All OnlyReports
      (reconcile (sample_kube even_cluster (pos 0)) lab (fresh_run even_cluster)).1.history
    × IfOk
        (Rejected (sample_kube even_cluster (pos 0)) (even_monitors (pos 2)))
        (reconcile (sample_kube even_cluster (pos 0)) lab (fresh_run even_cluster))
unfolding sample_kube validate_ceph
reconcile-OnlyReports_example =
    reconcile-OnlyReports (sample_kube even_cluster (pos 0)) lab even_cluster even_cluster
      (even_monitors (pos 2)) (sample-Laws even_cluster (pos 0)) refl refl refl

-- the pass over a built cluster with a healthy Ceph comes to its end
ready_test :
    (reconcile (sample_kube three_nodes (pos 3)) lab (fresh_run three_nodes)).0 ≡ ok requeue_long
unfolding reconcile sample_kube ◌>>=◌ fetch_cluster request attempt modify the_cluster pure lift
    with_context raise deferred current_time validate_ceph provision ensure_service
    ensure_config_map ensure_stateful_set config_map render_corosync corosync_nodes converge
    build_cluster become_ready set_condition update_status write_status retry_steps is_true_in
    set_condition_in reconcile_ceph walk_plan ceph_plan exec_script run ceph_step_condition
    status_task parse_ceph_status ceph_usable effective_mon_count effective_mgr_count show_ℕ show_ℤ
    contains_in add_finalizer write_finalizer
ready_test = refl

join_nodes-JoinedOf_example :
    Ends
      (join_nodes (sample_kube three_nodes (pos 3)) 1 (later_indices (pos 3)))
      (fresh_run three_nodes)
      (λ out h.
        Joins (sample_kube three_nodes (pos 3)) three_nodes 1 (later_indices (pos 3)) out [] h
        × JoinedOf 3 out)
join_nodes-JoinedOf_example =
    join_nodes-JoinedOf (sample_kube three_nodes (pos 3)) 3 (fresh_run three_nodes) (omega arith)

two_ready :
    (h : History) (at : Key) (sts : StatefulSet)
    → (sample_kube three_nodes (pos 2)).server.on_get_stateful_set h at ≡ ok sts
    → eqb_ℤ sts.ready_replicas three_nodes.spec.nodes ≡ false
two_ready h at sts e = sample-ready three_nodes (pos 2) false h at sts refl e

reconcile-OnlyWaits_example :
    All OnlyWaits
      (reconcile (sample_kube three_nodes (pos 2)) lab (fresh_run three_nodes)).1.history
unfolding sample_kube
reconcile-OnlyWaits_example =
    reconcile-OnlyWaits (sample_kube three_nodes (pos 2)) lab three_nodes three_nodes
      (sample-Laws three_nodes (pos 2)) refl two_ready

abbrev deleted_cluster : ProxmoxCluster
deleted_cluster = record three_nodes {
  meta = record three_nodes.meta { deletion_timestamp = some 5; finalizers = finalizer_name ∷ [] };
}

reconcile-OnlyReleases_example :
    All
      (OnlyReleases (sample_kube deleted_cluster (pos 3)))
      (reconcile (sample_kube deleted_cluster (pos 3)) lab (fresh_run three_nodes)).1.history
    × AsksNoRequeue (reconcile (sample_kube deleted_cluster (pos 3)) lab (fresh_run three_nodes)).0
unfolding sample_kube
reconcile-OnlyReleases_example =
    reconcile-OnlyReleases (sample_kube deleted_cluster (pos 3)) lab deleted_cluster three_nodes 5
      (sample-Laws deleted_cluster (pos 3)) (sample-IsRemoval deleted_cluster (pos 3)) refl refl

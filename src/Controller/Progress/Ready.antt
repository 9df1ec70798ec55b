-- ===== src/Controller/Progress/Ready.antt =====
-- Steps 7 and 10 of `Reconcile` in proxmoxcluster_controller.go where the server answers, the
-- scripts succeed and Ceph becomes healthy.
use multiprox.Prelude.{
  sym, ◌≡◌, refl, ap, ◌∙◌, subst, String, Bool, true, false, not, Option, some, none, if◌then◌else◌,
  both_values,
}
use multiprox.Prelude.Int.{eqb_ℤ}
use multiprox.Api.Cluster
use multiprox.Api.Cluster.{
  Phase, CephSpec, CephStatus, condition_cluster_initialized, condition_all_nodes_joined,
  condition_statefulset_ready, ProxmoxCluster, ProxmoxClusterSpec,
}
use multiprox.Text.Strings.{◌+++◌}
use multiprox.Text.Decimal.{show_ℤ}
use multiprox.Workload.Objects.{StatefulSet}
use multiprox.Errors.{Result, ok, err}
use multiprox.Controller.Kube.{get_stateful_set, Key, key_of, Kube, Pass}
use multiprox.Controller.Pass.{request, ◌>>◌}
use multiprox.Controller.Status.{set_condition}
use multiprox.Controller.Steps.{Requeue, requeue_short, requeue_long, initialize, join}
use multiprox.Controller.Reconcile.{
  become_ready, wait_for_pods, after_ceph, reconcile_storage, build_cluster, gate, converge,
}
use multiprox.Controller.Progress.{
  Claim, Does, Does-relax, Does-if, Does-bind, Does-the_cluster, Does-request, Does-attempt,
}
use multiprox.Controller.Progress.Status.{stored}
use multiprox.Controller.Progress.Stages.{
  Cooperates, At, At-same, Ends_in, Does-At-set, Does-finish, Does-initialize, Does-join,
}
use multiprox.Controller.Progress.Ceph.{Converges, Built, Does-reconcile_ceph}

module _ (k : Kube) (before : ProxmoxCluster) (spec : ProxmoxClusterSpec)
    (conv : Converges k before spec) where
  coop : Cooperates k before
  coop = conv.cooperates

  abbrev pub Finished : Requeue → Claim
  Finished = Ends_in k before conv.cooperates spec true true Cluster.ready requeue_long

  Does-become_ready : Does (Built k before spec conv) (become_ready k) Finished
  unfolding become_ready
  Does-become_ready =
      Does-bind (Does-At-set k before coop spec true true true true _ true _ _ _ refl refl)
        (λ _. Does-finish k before coop spec true true Cluster.ready requeue_long)

  Does-after_ceph :
      (waiting : Option Requeue)
      → Does (λ c. Built k before spec conv c × (waiting ≡ none)) (after_ceph k waiting) Finished
  Does-after_ceph none = Does-relax (λ c h. h.0) (λ r c h. h) Does-become_ready
  Does-after_ceph (some r) = record { run = λ s h. absurd (let wrong = h.1 in cc) }

  Does-reconcile_storage :
      (ceph : Option CephSpec)
      → spec.ceph ≡ ceph
      → Does (Built k before spec conv) (reconcile_storage k ceph) Finished
  Does-reconcile_storage none asked = Does-become_ready
  Does-reconcile_storage (some ceph) asked =
      Does-bind (Does-reconcile_ceph k before spec conv ceph asked) Does-after_ceph

  -- where a round ends that begins at this stage
  abbrev pub Advanced : Bool → Bool → Requeue → Claim
  Advanced false j = Ends_in k before conv.cooperates spec true j Cluster.joining requeue_short
  Advanced true false =
      Ends_in k before conv.cooperates spec true true Cluster.joining requeue_short
  Advanced true true = Finished

  -- a condition of the cluster that a round has read
  flag_of :
      (type : String) (flag : Bool) (cluster c : ProxmoxCluster)
      → k.is_status_condition_true c.status.conditions type ≡ flag
      → cluster ≡ c
      → k.is_status_condition_true cluster.status.conditions type ≡ flag
  flag_of type flag cluster c h e =
      ap (λ d. k.is_status_condition_true d.status.conditions type) e ∙ h

  abbrev steps_from : ProxmoxCluster → Pass Requeue
  steps_from cluster =
      if not (k.is_status_condition_true cluster.status.conditions condition_cluster_initialized)
      then initialize k
      else if not (k.is_status_condition_true cluster.status.conditions condition_all_nodes_joined)
      then join k
      else reconcile_storage k cluster.spec.ceph

  from_stage :
      (cluster : ProxmoxCluster) (i j : Bool)
      → Does
          (λ s. At k before spec i j s × (cluster ≡ s.cluster))
          (steps_from cluster)
          (Advanced i j)
  from_stage cluster false j = record {
    run = λ s h.
        rw (flag_of condition_cluster_initialized false cluster s.cluster h.0.is_initialized h.1)
          ((Does-initialize k before coop spec j).run s h.0);
  }
  from_stage cluster true false = record {
    run = λ s h.
        rw
          (
            flag_of condition_cluster_initialized true cluster s.cluster h.0.is_initialized h.1,
            flag_of condition_all_nodes_joined false cluster s.cluster h.0.is_joined h.1,
          )
          ((Does-join k before coop spec).run s h.0);
  }
  from_stage cluster true true = record {
    run = λ s h.
        rw
          (
            flag_of condition_cluster_initialized true cluster s.cluster h.0.is_initialized h.1,
            flag_of condition_all_nodes_joined true cluster s.cluster h.0.is_joined h.1,
          )
          ((Does-reconcile_storage cluster.spec.ceph
              (ap (λ c. c.ceph) (sym (ap (λ c. c.spec) h.1 ∙ h.0.same_spec)))).run
            s h.0);
  }

  Does-build_cluster : (i j : Bool) → Does (At k before spec i j) (build_cluster k) (Advanced i j)
  unfolding build_cluster
  Does-build_cluster i j = Does-bind Does-the_cluster (λ cluster. from_stage cluster i j)

  Does-gate :
      (i j : Bool) (sts : StatefulSet)
      → eqb_ℤ sts.ready_replicas spec.nodes ≡ true
      → Does (At k before spec i j) (gate k (ok sts)) (Advanced i j)
  Does-gate i j sts h = Does-bind Does-the_cluster (λ cluster. record {
    run = λ s a. (counted cluster (ap (λ d. d.spec) a.1 ∙ a.0.same_spec)).run s a.0;
  })
    where
      counted :
          (cluster : ProxmoxCluster)
          → cluster.spec ≡ spec
          → Does
              (At k before spec i j)
              (set_condition k condition_statefulset_ready
                  (eqb_ℤ sts.ready_replicas cluster.spec.nodes)
                  "AllPodsReady"
                  "NotAllPodsReady"
                  (show_ℤ sts.ready_replicas
                    +++ "/"
                    +++ show_ℤ cluster.spec.nodes
                    +++ " pods ready")
                >> (if eqb_ℤ sts.ready_replicas cluster.spec.nodes
                    then build_cluster k
                    else wait_for_pods k))
              (Advanced i j)
      counted cluster same =
          Does-bind
            (Does-At-set k before coop spec i j i j condition_statefulset_ready _ _ _ _ refl refl)
            (λ _.
              Does-if (eqb_ℤ sts.ready_replicas cluster.spec.nodes) _ _
                (λ _. Does-build_cluster i j)
                (λ e.
                  absurd (both_values _ (ap (λ sp. eqb_ℤ sts.ready_replicas sp.nodes) same ∙ h) e)))

  Does-found :
      (i j : Bool) (found : Result StatefulSet)
      → Does
          (λ c.
            (sts : StatefulSet) × (found ≡ ok sts)
            × (At k before spec i j c × (eqb_ℤ sts.ready_replicas spec.nodes ≡ true)))
          (gate k found)
          (Advanced i j)
  Does-found i j (ok sts) = record {
    run = λ s h.
        let same : h.0 ≡ sts = (let e = h.1 in cc) in
        (Does-gate i j sts (subst (λ t. eqb_ℤ t.ready_replicas spec.nodes ≡ true) same h.2.1)).run s
          h.2.0;
  }
  Does-found i j (err e) = record { run = λ s h. absurd (let wrong = h.1 in cc) }

  set_read :
      (i j : Bool) (key : Key)
      → Does
          (At k before spec i j)
          (request (get_stateful_set key) (λ h. k.server.on_get_stateful_set h key))
          (λ sts s. At k before spec i j s × (eqb_ℤ sts.ready_replicas spec.nodes ≡ true))
  unfolding stored
  set_read i j key =
      Does-request _ _ (λ h. let (sts, e, _) = conv.all_ready h key in (sts, e))
        (λ s sts e a.
          let (sts', e', ready) = conv.all_ready s.history key in
          let same : sts' ≡ sts = cc in
          (
            At-same k before spec s _ refl refl refl a,
            subst (λ t. eqb_ℤ t.ready_replicas spec.nodes ≡ true) same ready,
          ))

  pub Does-converge : (i j : Bool) → Does (At k before spec i j) (converge k) (Advanced i j)
  unfolding converge
  Does-converge i j =
      Does-bind (Does-relax (λ c h. h) (λ cluster c h. h.0) Does-the_cluster) (λ cluster.
        Does-bind (Does-attempt (set_read i j (key_of cluster.meta)))
          (λ found. Does-found i j found))

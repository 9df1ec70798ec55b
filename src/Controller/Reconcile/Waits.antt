-- ===== src/Controller/Reconcile/Waits.antt =====
-- What `Reconcile` of proxmoxcluster_controller.go does while pods are missing.
use multiprox.Prelude.{both_values, ◌≡◌, ◌∙◌, refl, ap, false, [], ◌∷◌, All}
use multiprox.Prelude.Int.{eqb_ℤ}
use multiprox.Api.Cluster
use multiprox.Api.Cluster.{Phase, ProxmoxCluster, ProxmoxClusterSpec}
use multiprox.Workload.Objects.{StatefulSet}
use multiprox.Errors.{Result, ok, err, is_not_found}
use multiprox.Controller.Kube.{
  Key, Call, History, get_stateful_set, update_cluster_status, exec, Kube,
}
use multiprox.Controller.Pass.{attempt, request}
use multiprox.Controller.Pass.Keeps.{
  Assertion, Keeps, Stable, Keeps-relax, Keeps-given, Keeps-if, Keeps-bind, Keeps-bind_seen,
}
use multiprox.Controller.Status.Stable.{
  IsPlain, Stable-pure, Stable-raise, Stable-bind, Stable-the_cluster,
}
use multiprox.Controller.Steps.Keeps.{MayWait, Stable-set_condition, Stable-write}
use multiprox.Controller.Reconcile.{wait_for_pods, gate, converge, reconcile}
use multiprox.Controller.Reconcile.Conditions.{Laws}
use multiprox.Controller.Reconcile.Frame.{Frame, Keeps-start_from}
use multiprox.Controller.Reconcile.Fetched.{fresh_run, reconcile-All}

abbrev pub NotReady : Phase → Type 0
NotReady Cluster.ready = ⊥
NotReady _ = Unit

-- nothing runs in a pod but the inventory, and nothing says Ready
abbrev pub OnlyWaits : Call → Type 0
OnlyWaits (exec _ argv) = argv ≡ "bash" ∷ "/scripts/cluster-inventory.sh" ∷ []
OnlyWaits (update_cluster_status c) = NotReady c.status.phase
OnlyWaits _ = Unit

plain : (c : Call) → IsPlain c → OnlyWaits c
plain (exec _ _) p = absurd p
plain (update_cluster_status _) p = absurd p
plain _ p = tt

wait : (J : Assertion) → MayWait OnlyWaits J
wait J Cluster.ready p cluster latest j = absurd p
wait J _ p cluster latest j = tt

abbrev IsShort : ProxmoxCluster → Result StatefulSet → Type 0
IsShort cluster (ok sts) = eqb_ℤ sts.ready_replicas cluster.spec.nodes ≡ false
IsShort cluster (err e) = Unit

IsShort-of :
    (cluster : ProxmoxCluster) (r : Result StatefulSet)
    → ((sts : StatefulSet) → r ≡ ok sts → eqb_ℤ sts.ready_replicas cluster.spec.nodes ≡ false)
    → IsShort cluster r
IsShort-of cluster (ok sts) f = f sts refl
IsShort-of cluster (err e) f = tt

module _ (k : Kube) (laws : Laws k) (cluster : ProxmoxCluster) where
  abbrev SameSpec : Assertion
  SameSpec v = v.spec ≡ cluster.spec

  Stable-wait_for_pods : Stable OnlyWaits SameSpec (wait_for_pods k)
  Stable-wait_for_pods =
      Stable-bind
        (Stable-write k laws.retry plain Cluster.pending (wait SameSpec Cluster.pending tt))
        (λ _. Stable-pure _)

  Stable-gate :
      (found : Result StatefulSet)
      → IsShort cluster found
      → Stable OnlyWaits SameSpec (gate k found)
  Stable-gate (err e) short =
      Keeps-if (is_not_found e) (λ _. Stable-wait_for_pods) (λ _. Stable-raise e)
  Stable-gate (ok sts) short = Keeps-bind_seen (λ c same.
      let still : eqb_ℤ sts.ready_replicas c.spec.nodes ≡ false =
        ap (λ spec. eqb_ℤ sts.ready_replicas spec.nodes) same ∙ short in
      Keeps-relax {J = SameSpec} (λ v h. h.0) (λ a v h. h) (λ v h. h)
        (Stable-bind (Stable-set_condition k laws.retry plain _ _ _ _ _ (λ v now d p h. h)) (λ _.
          Keeps-if (eqb_ℤ sts.ready_replicas c.spec.nodes)
            (λ full. absurd (both_values _ full still)) (λ _. Stable-wait_for_pods))))

  module _
      (short : (h : History) (key : Key) (sts : StatefulSet)
        → k.server.on_get_stateful_set h key ≡ ok sts
        → eqb_ℤ sts.ready_replicas cluster.spec.nodes ≡ false) where
    Keeps-look :
        (key : Key)
        → Keeps OnlyWaits SameSpec
            (attempt (request (get_stateful_set key) (λ h. k.server.on_get_stateful_set h key)))
            (λ found v. SameSpec v × IsShort cluster found)
            SameSpec
    unfolding attempt request
    Keeps-look key = record {
      holds = λ s h j. (
        (tt, h),
        (j, IsShort-of cluster (k.server.on_get_stateful_set s.history key) (short s.history key)),
      );
    }

    Stable-converge : Stable OnlyWaits SameSpec (converge k)
    unfolding converge
    Stable-converge =
        Stable-bind Stable-the_cluster
          (λ c. Keeps-bind (Keeps-look _) (λ found. Keeps-given (Stable-gate found)))

    pub Waits-Frame : Frame k OnlyWaits SameSpec
    Waits-Frame = record {
      retry = laws.retry;
      plain = plain;
      wait = wait SameSpec;
      reject = λ v now c p h. h;
      inventory = λ key. refl;
      prune = λ c key h p. tt;
      converge = Stable-converge;
    }

-- Where the libraries behave as documented: while every StatefulSet that the API server shows has
-- another number of ready pods than the fetched spec has nodes, a pass runs nothing in a pod but
-- the inventory script, and writes no status that says Ready.
pub reconcile-OnlyWaits :
    (k : Kube) (key : Key) (cluster nothing : ProxmoxCluster)
    → Laws k
    → k.server.on_get_cluster [] key ≡ ok cluster
    → ((h : History) (at : Key) (sts : StatefulSet)
        → k.server.on_get_stateful_set h at ≡ ok sts
        → eqb_ℤ sts.ready_replicas cluster.spec.nodes ≡ false)
    → All OnlyWaits (reconcile k key (fresh_run nothing)).1.history
reconcile-OnlyWaits k key cluster nothing laws fetched short =
    reconcile-All k key cluster nothing fetched tt
      (Keeps-start_from k (Waits-Frame k laws cluster short) cluster refl)

-- ===== src/Controller/Steps/Usable.antt =====
-- `reconcileCeph` of proxmoxcluster_controller.go: the state of Ceph when it reports that it is done.
use multiprox.Prelude.{◌≡◌, ◌∙◌, ap, refl, ℕ, String, true, Option, none, some, List, [], ◌∷◌, All}
use multiprox.Api.Cluster
use multiprox.Api.Cluster.{
  CephSpec, CephStatus, ProxmoxCluster, condition_ceph_initialized, condition_ceph_mons_ready,
  condition_ceph_osds_ready, condition_ceph_pools_ready, condition_ceph_healthy,
}
use multiprox.Ceph.Plan.{CephStep, init, mon, osd, pool, status, CephTask, ceph_plan, status_task}
use multiprox.Ceph.Status.{ceph_usable, parse_ceph_status}
use multiprox.Errors.{Error}
use multiprox.Controller.Kube.{Call, Pass, Kube}
use multiprox.Controller.Pass.Keeps.{
  View, view, Assertion, Keeps, Stable, IsRetry, Keeps-relax, Keeps-pure, Keeps-if, Keeps-bind,
  Keeps-bind_cluster, Keeps-modify,
}
use multiprox.Controller.Status.Stable.{
  IsPlain, MayExec, Stable-pure, Stable-bind, Keeps-set_condition,
}
use multiprox.Controller.Steps.{
  requeue_medium, set_ceph, ceph_step_condition, next_task, walk_plan, plan_failed,
  report_structure, not_usable, report_status, poll_status, after_plan, reconcile_ceph,
}
use multiprox.Controller.Steps.Keeps.{
  MaySet, MayWait, Stable-set_condition, Stable-exec, Stable-write,
}

abbrev pub IsUsable : Assertion → Assertion
IsUsable J v = J v × (ceph_usable v.ceph ≡ true)

-- `none` is the result `done`
abbrev pub DoneUsable : Assertion → Option (Option ℕ) → Assertion
DoneUsable J none = IsUsable J
DoneUsable J (some _) = J

abbrev HasCeph : Assertion → CephStatus → Assertion
HasCeph J st v = J v × (v.ceph ≡ some st)

module _ (k : Kube) (retry : IsRetry k.retry_on_conflict) {P : Call → Type 0} {J : Assertion}
    (plain : (c : Call) → IsPlain c → P c) (wait : MayWait P J)
    (set : (step : CephStep) → MaySet k J (ceph_step_condition step))
    (put : (v : View) (st : CephStatus) → J v → J (record v { ceph = some st })) where
  Stable-next_task :
      (t : CephTask) {rest : Pass (Option (CephTask × Error))}
      → Stable P J rest
      → (error : Option Error) → Stable P J (next_task k t rest error)
  Stable-next_task t rest none = rest
  Stable-next_task t rest (some e) = Stable-pure _

  Stable-walk_plan :
      (tasks : List CephTask) → All (λ t. MayExec P t.script) tasks → Stable P J (walk_plan k tasks)
  unfolding walk_plan
  Stable-walk_plan [] may = Stable-pure _
  Stable-walk_plan (t ∷ ts) (p, may) =
      Stable-bind (Stable-exec k retry plain t.ordinal t.script p)
        (λ reply. Stable-next_task t (Stable-walk_plan ts may) reply.1)

  Keeps-wait : Keeps P J (not_usable k) (DoneUsable J) J
  Keeps-wait =
      Keeps-bind (Stable-write k retry plain Cluster.configuring_ceph (wait _ tt))
        (λ _. Keeps-pure {K = DoneUsable J} (some requeue_medium))

  Keeps-plan_failed : (t : CephTask) (e : Error) → Keeps P J (plan_failed k t e) (DoneUsable J) J
  Keeps-plan_failed t e =
      Keeps-bind (Stable-set_condition k retry plain _ _ _ _ _ (set t.step)) (λ _. Keeps-wait)

  Stable-report_structure :
      (cluster : ProxmoxCluster) (ceph : CephSpec) → Stable P J (report_structure k cluster ceph)
  unfolding ceph_step_condition
  Stable-report_structure cluster ceph =
      Stable-bind (Stable-set_condition k retry plain _ _ _ _ _ (set init)) (λ _.
        Stable-bind (Stable-set_condition k retry plain _ _ _ _ _ (set mon))
          (λ _. Stable-set_condition k retry plain _ _ _ _ _ (set pool)))

  Keeps-report_status : (st : CephStatus) → Keeps P J (report_status k st) (DoneUsable J) J
  unfolding ceph_step_condition
  Keeps-report_status st =
      Keeps-bind (Keeps-modify {K = HasCeph J st} (set_ceph st) (λ c j. (put (view c) st j, refl)))
        (λ _.
          Keeps-bind
            (Keeps-set_condition k {K = HasCeph J st} _ _ _ _ _
              (λ v now g h. (set osd v now _ refl h.0, h.1)))
            (λ _.
              Keeps-bind
                (Keeps-set_condition k {K = HasCeph J st} _ _ _ _ _
                  (λ v now g h. (set status v now _ refl h.0, h.1)))
                (λ _.
                  Keeps-if (ceph_usable (some st))
                    (λ p.
                      Keeps-relax {J = IsUsable J} (λ v h. (h.0, ap ceph_usable h.1 ∙ p))
                        (λ a v h. h) (λ v h. h) (Keeps-pure {K = DoneUsable J} none))
                    (λ p. Keeps-relax {J = J} (λ v h. h.0) (λ a v h. h) (λ v h. h) Keeps-wait))))

  Keeps-poll_status :
      (cluster : ProxmoxCluster) (reply : String × Option Error)
      → Keeps P J (poll_status k cluster reply) (DoneUsable J) J
  Keeps-poll_status cluster (out, none) = Keeps-report_status (parse_ceph_status cluster out)
  Keeps-poll_status cluster (out, some _) = Keeps-pure {K = DoneUsable J} (some requeue_medium)

  Keeps-after_plan :
      MayExec P "/scripts/ceph-status.sh"
      → (cluster : ProxmoxCluster) (ceph : CephSpec) (failed : Option (CephTask × Error))
      → Keeps P J (after_plan k cluster ceph failed) (DoneUsable J) J
  unfolding status_task
  Keeps-after_plan may cluster ceph none = Keeps-bind (Stable-report_structure cluster ceph) (λ _.
      Keeps-bind (Stable-exec k retry plain _ _ may) (λ reply. Keeps-poll_status cluster reply))
  Keeps-after_plan may cluster ceph (some (t, e)) = Keeps-plan_failed t e

  pub Keeps-reconcile_ceph :
      MayExec P "/scripts/ceph-status.sh"
      → ((cluster : ProxmoxCluster)
          → J (view cluster)
          → All (λ t. MayExec P t.script) (ceph_plan cluster))
      → (ceph : CephSpec) → Keeps P J (reconcile_ceph k ceph) (DoneUsable J) J
  unfolding reconcile_ceph
  Keeps-reconcile_ceph may plan ceph =
      Keeps-bind (Stable-write k retry plain Cluster.configuring_ceph (wait _ tt)) (λ _.
        Keeps-bind_cluster (λ cluster j.
          Keeps-bind (Stable-walk_plan (ceph_plan cluster) (plan cluster j))
            (λ failed. Keeps-after_plan may cluster ceph failed)))

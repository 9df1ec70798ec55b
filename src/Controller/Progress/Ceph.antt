-- ===== src/Controller/Progress/Ceph.antt =====
-- Step 11 of `Reconcile` in proxmoxcluster_controller.go where the server answers, the scripts
-- succeed and the status script reports a Ceph that is usable.
use multiprox.Prelude.{
  ◌≡◌, refl, ap, ◌∙◌, ◌∷◌, [], List, String, Bool, true, false, Option, some, none, ◌==◌,
  both_values,
}
use multiprox.Prelude.Int.{eqb_ℤ}
use multiprox.Api.Cluster
use multiprox.Api.Cluster.{
  Phase, CephSpec, CephStatus, condition_cluster_initialized, condition_all_nodes_joined,
  condition_statefulset_ready, ProxmoxCluster, ProxmoxClusterSpec,
}
use multiprox.Ceph.Plan.{CephTask, ceph_plan, status_task}
use multiprox.Ceph.Status.{parse_ceph_status, ceph_usable}
use multiprox.Workload.Objects.{StatefulSet}
use multiprox.Errors.{Error, ok}
use multiprox.Controller.Kube.{Key, History, Run, Kube}
use multiprox.Controller.Status.{set_condition}
use multiprox.Controller.Steps.{
  walk_plan, after_plan, report_status, poll_status, reconcile_ceph, set_ceph,
}
use multiprox.Controller.Steps.Completes.{
  script_output, script_calls, plan_calls, walk_plan-completes,
}
use multiprox.Controller.Progress.{
  Claim, Does, Does-relax, Does-pure, Does-if, Does-bind, Does-modify, Does-the_cluster,
}
use multiprox.Controller.Progress.Status.{stored, Does-exec_script}
use multiprox.Controller.Progress.Stages.{Cooperates, At, At-same, Does-At-set, Does-At-phase}

-- The server answers with all pods ready, and where the spec asks for Ceph, the status script reports
-- one that is usable.
pub record Converges (k : Kube) (before : ProxmoxCluster) (spec : ProxmoxClusterSpec) : Type 0 where
  pub cooperates : Cooperates k before
  pub all_ready :
      (h : History) (key : Key)
      → (sts : StatefulSet) × (k.server.on_get_stateful_set h key ≡ ok sts)
        × (eqb_ℤ sts.ready_replicas spec.nodes ≡ true)
  pub usable :
      (ceph : CephSpec) (c c' : ProxmoxCluster) (h : History)
      → spec.ceph ≡ some ceph
      → c.spec ≡ spec
      → c'.spec ≡ spec
      → ceph_usable
          (some (parse_ceph_status c (script_output k c' status_task.ordinal status_task.script h)))
        ≡ true

module _ (k : Kube) (before : ProxmoxCluster) (spec : ProxmoxClusterSpec)
    (conv : Converges k before spec) where
  coop : Cooperates k before
  coop = conv.cooperates

  abbrev pub Built : Claim
  Built = At k before spec true true

  stored-plan_calls :
      (c : ProxmoxCluster) (plan : List CephTask) (h : History)
      → stored before (plan_calls c plan h) ≡ stored before h
  unfolding stored
  stored-plan_calls c [] h = refl
  stored-plan_calls c (t ∷ ts) h = stored-plan_calls c ts (script_calls c t.ordinal t.script h)

  Does-walk_plan :
      (plan : List CephTask)
      → Does
          (At k before spec true true)
          (walk_plan k plan)
          (λ failed c. At k before spec true true c × (failed ≡ none))
  Does-walk_plan plan = record {
    run = λ s a. (
      none,
      _,
      walk_plan-completes k conv.cooperates.responds plan s,
      (At-same k before spec s _ refl refl (stored-plan_calls s.cluster plan s.history) a, refl),
    );
  }

  set_built :
      (type : String) (status : Bool) (tr fr message : String)
      → (type == condition_cluster_initialized) ≡ false
      → (type == condition_all_nodes_joined) ≡ false
      → Does Built (set_condition k type status tr fr message) (λ _. Built)
  set_built type status tr fr message p q =
      Does-At-set k before coop spec true true true true type status tr fr message (rw (p) refl)
        (rw (q) refl)

  Does-report_status :
      (st : CephStatus)
      → ceph_usable (some st) ≡ true
      → Does Built (report_status k st) (λ waiting c. Built c × (waiting ≡ none))
  Does-report_status st h =
      Does-bind (Does-modify (set_ceph st) (λ s a. At-same k before spec s _ refl refl refl a))
        (λ _. Does-bind (set_built _ _ _ _ _ refl refl) (λ _.
          Does-bind (set_built _ _ _ _ _ refl refl) (λ _.
            Does-if (ceph_usable (some st)) _ _
              (λ _.
                Does-relax (λ c a. (a, refl)) (λ r c h. h)
                  (Does-pure {K = λ waiting c. Built c × (waiting ≡ none)} none))
              (λ e. absurd (both_values _ h e)))))

  Does-after_plan :
      (cluster : ProxmoxCluster) (ceph : CephSpec)
      → spec.ceph ≡ some ceph
      → cluster.spec ≡ spec
      → Does Built (after_plan k cluster ceph none) (λ waiting c. Built c × (waiting ≡ none))
  unfolding stored
  Does-after_plan cluster ceph asked same =
      Does-bind
        (Does-bind (set_built _ _ _ _ _ refl refl)
          (λ _. Does-bind (set_built _ _ _ _ _ refl refl) (λ _. set_built _ _ _ _ _ refl refl)))
        (λ _.
          Does-bind
            (Does-exec_script k coop.responds status_task.ordinal status_task.script (λ s a. (
              At-same k before spec s _ refl refl refl a,
              conv.usable ceph cluster s.cluster s.history asked same a.same_spec,
              refl,
            )))
            (λ reply. polled reply))
    where
      polled :
          (reply : String × Option Error)
          → Does
              (λ c.
                Built c
                × (ceph_usable (some (parse_ceph_status cluster reply.0)) ≡ true)
                × (reply.1 ≡ none))
              (poll_status k cluster reply)
              (λ waiting c. Built c × (waiting ≡ none))
      polled (out, none) = record {
        run = λ s h. (Does-report_status (parse_ceph_status cluster out) h.1).run s h.0;
      }
      polled (out, some e) = record { run = λ s h. absurd (let wrong = h.2 in cc) }

  pub Does-reconcile_ceph :
      (ceph : CephSpec)
      → spec.ceph ≡ some ceph
      → Does Built (reconcile_ceph k ceph) (λ waiting c. Built c × (waiting ≡ none))
  unfolding reconcile_ceph
  Does-reconcile_ceph ceph asked =
      Does-bind
        (Does-relax (λ c h. h) (λ r c h. h.0)
          (Does-At-phase k before coop spec true true Cluster.configuring_ceph))
        (λ _.
          Does-bind
            (Does-relax (λ c h. h) (λ cluster c h. (h.0, known cluster c h.0 h.1)) Does-the_cluster)
            (λ cluster. Does-bind (walked cluster) (λ failed. planned cluster failed)))
    where
      known :
          (cluster : ProxmoxCluster) (s : Run) → Built s → cluster ≡ s.cluster → cluster.spec ≡ spec
      known cluster c a e = ap (λ d. d.spec) e ∙ a.same_spec

      walked :
          (cluster : ProxmoxCluster)
          → Does
              (λ c. Built c × (cluster.spec ≡ spec))
              (walk_plan k (ceph_plan cluster))
              (λ failed c. Built c × (failed ≡ none) × (cluster.spec ≡ spec))
      walked cluster = record {
        run = λ s h.
            let (a, s', e, r) = (Does-walk_plan (ceph_plan cluster)).run s h.0 in
            (a, s', e, (r.0, r.1, h.1));
      }

      planned :
          (cluster : ProxmoxCluster) (failed : Option (CephTask × Error))
          → Does
              (λ c. Built c × (failed ≡ none) × (cluster.spec ≡ spec))
              (after_plan k cluster ceph failed)
              (λ waiting c. Built c × (waiting ≡ none))
      planned cluster none = record {
        run = λ s h. (Does-after_plan cluster ceph asked h.2).run s h.0;
      }
      planned cluster (some e) = record { run = λ s h. absurd (let wrong = h.1 in cc) }

-- ===== src/Controller/Reconcile/Joins.antt =====
-- When `Reconcile` of proxmoxcluster_controller.go runs the join script.
use multiprox.Prelude.{both_values, ◌≡◌, refl, String, true, false, List, [], ◌∷◌, All, ◌==◌}
use multiprox.Api.Cluster.{ProxmoxCluster, condition_all_nodes_joined}
use multiprox.Ceph.Plan.Scripts.{ceph_plan-script}
use multiprox.Errors.{ok}
use multiprox.Controller.Kube.{Key, Call, exec, Kube}
use multiprox.Controller.Pass.Keeps.{Assertion}
use multiprox.Controller.Status.Stable.{IsPlain, MayExec}
use multiprox.Controller.Reconcile.{reconcile}
use multiprox.Controller.Reconcile.Fetched.{fresh_run, reconcile-All}
use multiprox.Controller.Reconcile.Frame.{Keeps-start_from}
use multiprox.Controller.Reconcile.Permits.{Permits, Permits-Frame}
use multiprox.Controller.Reconcile.Conditions.{Laws, IsTrue, IsTrue-other}

abbrev pub join_command : List String
join_command = "bash" ∷ "/scripts/cluster-join.sh" ∷ []

abbrev pub script_of : List String → String
script_of (_ ∷ script ∷ _) = script
script_of _ = ""

-- no node is joined
abbrev pub JoinsNothing : Call → Type 0
JoinsNothing (exec _ argv) = (script_of argv == "/scripts/cluster-join.sh") ≡ false
JoinsNothing _ = Unit

plain : (c : Call) → IsPlain c → JoinsNothing c
plain (exec _ _) p = absurd p
plain _ p = tt

abbrev Joined : Kube → Assertion
Joined k = IsTrue k condition_all_nodes_joined

Joins-Permits : (k : Kube) → Laws k → Permits k JoinsNothing (Joined k)
Joins-Permits k laws = record {
  retry = laws.retry;
  plain = plain;
  write = λ phase c latest h. tt;
  set = λ type p v now c q h. IsTrue-other k laws now v.conditions c type _ q p h;
  put_ceph = λ v st h. h;
  initialize = λ key. refl;
  inventory = λ key. refl;
  plan = λ c h. ceph_plan-script (MayExec JoinsNothing) c (λ ceph p. record {
    init = λ key. refl;
    mon = λ key. refl;
    mgr = λ key. refl;
    osd = λ key. refl;
    pool = λ key. refl;
  });
  ceph_status = λ c ceph h p key. refl;
  prune = λ c key h p. tt;
  join_nodes = λ c h p. absurd (both_values _ h p);
}

-- Where the libraries behave as documented: once AllNodesJoined is true in the status that a pass
-- fetches, the pass runs the join script on no node, however many nodes the spec asks for by then.
pub reconcile-JoinsNothing :
    (k : Kube) (key : Key) (cluster nothing : ProxmoxCluster)
    → Laws k
    → k.server.on_get_cluster [] key ≡ ok cluster
    → k.is_status_condition_true cluster.status.conditions condition_all_nodes_joined ≡ true
    → All JoinsNothing (reconcile k key (fresh_run nothing)).1.history
reconcile-JoinsNothing k key cluster nothing laws fetched joined =
    reconcile-All k key cluster nothing fetched tt
      (Keeps-start_from k (Permits-Frame k (Joins-Permits k laws)) cluster joined)

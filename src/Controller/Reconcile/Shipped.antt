-- ===== src/Controller/Reconcile/Shipped.antt =====
-- The scripts that `Reconcile` of proxmoxcluster_controller.go runs in the pods.
use multiprox.Prelude.{
  ◌≡◌, ◌∙◌, refl, sym, subst, String, some, inl, inr, List, [], ◌∷◌, All, Any, Any-append_right,
}
use multiprox.Text.Strings.{◌+++◌}
use multiprox.Api.Meta.{StringMap}
use multiprox.Api.Cluster.{CephSpec, ProxmoxCluster}
use multiprox.Workload.ConfigMap.{config_data, common_files, ceph_scripts}
use multiprox.Ceph.Plan.Scripts.{OfPlan, ceph_plan-script}
use multiprox.Errors.{ok}
use multiprox.Controller.Kube.{Key, Call, exec, Kube}
use multiprox.Controller.Pass.Keeps.{Assertion}
use multiprox.Controller.Status.Stable.{IsPlain, MayExec}
use multiprox.Controller.Steps.Keeps.{Stable-join}
use multiprox.Controller.Reconcile.{reconcile}
use multiprox.Controller.Reconcile.Fetched.{fresh_run, reconcile-All}
use multiprox.Controller.Reconcile.Frame.{Keeps-start_from}
use multiprox.Controller.Reconcile.Permits.{Permits, Permits-Frame}
use multiprox.Controller.Reconcile.Conditions.{Laws}

-- the text of a file's path in the pods, where the ConfigMap is mounted
abbrev pub mounted : String → String
mounted file = "/scripts/" +++ file

-- `bash` on a file of the ConfigMap
abbrev pub RunsFileOf : StringMap → List String → Type 0
RunsFileOf data_of argv = Any (λ file. argv ≡ "bash" ∷ mounted file.0 ∷ []) data_of

-- what runs in a pod is a file of the cluster's ConfigMap
abbrev pub RunsShipped : ProxmoxCluster → Call → Type 0
RunsShipped cluster (exec _ argv) =
    (corosync : String) → RunsFileOf (config_data cluster corosync) argv
RunsShipped cluster _ = Unit

module _ (cluster : ProxmoxCluster) where
  abbrev P : Call → Type 0
  P = RunsShipped cluster

  abbrev SameCeph : Assertion
  SameCeph v = v.spec.ceph ≡ cluster.spec.ceph

  plain : (c : Call) → IsPlain c → P c
  plain (exec _ _) p = absurd p
  plain _ p = tt

  init_shipped : MayExec P "/scripts/cluster-init.sh"
  unfolding config_data common_files
  init_shipped key corosync = inr (inr (inl refl))

  join_shipped : MayExec P "/scripts/cluster-join.sh"
  unfolding config_data common_files
  join_shipped key corosync = inr (inr (inr (inl refl)))

  inventory_shipped : MayExec P "/scripts/cluster-inventory.sh"
  unfolding config_data common_files
  inventory_shipped key corosync = inr (inr (inr (inr (inr (inl refl)))))

  ceph_shipped :
      (ceph : CephSpec) (argv : List String)
      → cluster.spec.ceph ≡ some ceph
      → RunsFileOf (ceph_scripts cluster (some ceph)) argv
      → (corosync : String) → RunsFileOf (config_data cluster corosync) argv
  unfolding config_data common_files
  ceph_shipped ceph argv p h corosync =
      Any-append_right _ (common_files cluster corosync) _
        (subst (λ o. RunsFileOf (ceph_scripts cluster o) argv) (sym p) h)

  plan_shipped : (ceph : CephSpec) → cluster.spec.ceph ≡ some ceph → OfPlan (MayExec P)
  unfolding ceph_scripts
  plan_shipped ceph p = record {
    init = λ key. ceph_shipped ceph _ p (inl refl);
    mon = λ key. ceph_shipped ceph _ p (inr (inl refl));
    mgr = λ key. ceph_shipped ceph _ p (inr (inr (inl refl)));
    osd = λ key. ceph_shipped ceph _ p (inr (inr (inr (inl refl))));
    pool = λ key. ceph_shipped ceph _ p (inr (inr (inr (inr (inl refl)))));
  }

  status_shipped :
      (ceph : CephSpec) → cluster.spec.ceph ≡ some ceph → MayExec P "/scripts/ceph-status.sh"
  unfolding ceph_scripts
  status_shipped ceph p key = ceph_shipped ceph _ p (inr (inr (inr (inr (inr (inl refl))))))

  Shipped-Permits : (k : Kube) → Laws k → Permits k P SameCeph
  Shipped-Permits k laws = record {
    retry = laws.retry;
    plain = plain;
    write = λ phase c latest h. tt;
    set = λ type p v now c q h. h;
    put_ceph = λ v st h. h;
    initialize = init_shipped;
    inventory = inventory_shipped;
    plan = λ c h. ceph_plan-script (MayExec P) c (λ ceph p. plan_shipped ceph (sym h ∙ p));
    ceph_status = λ c ceph h p. status_shipped ceph (sym h ∙ p);
    prune = λ c key h p. tt;
    join_nodes = λ c h p.
        Stable-join k laws.retry plain (λ phase q d latest h. tt) join_shipped (λ v now c q h. h)
          (λ v now c q h. h);
  }

-- Whatever the API server answers, and where the libraries behave as documented, a pass runs
-- nothing in a pod but `bash` on a file that the ConfigMap of the fetched cluster ships, at the
-- path where the pods mount it.
pub reconcile-RunsShipped :
    (k : Kube) (key : Key) (cluster nothing : ProxmoxCluster)
    → Laws k
    → k.server.on_get_cluster [] key ≡ ok cluster
    → All (RunsShipped cluster) (reconcile k key (fresh_run nothing)).1.history
reconcile-RunsShipped k key cluster nothing laws fetched =
    reconcile-All k key cluster nothing fetched tt
      (Keeps-start_from k (Permits-Frame k (Shipped-Permits cluster k laws)) cluster refl)

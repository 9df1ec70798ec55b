-- ===== src/Controller/Reconcile/Prunes.antt =====
-- The nodes that `Reconcile` of proxmoxcluster_controller.go prunes.
use multiprox.Prelude.{
  ◌≡◌, ◌≢◌, refl, ap, subst, ℕ, String, Bool, false, ◌||◌, List, [], ◌∷◌, map, All, ◌==◌, eq_iff,
  arith,
}
use multiprox.Prelude.Int.{indices}
use multiprox.Text.Strings.{◌+++◌}
use multiprox.Text.Decimal.{show_ℕ}
use multiprox.Api.Cluster.{ProxmoxCluster}
use multiprox.Workload.Names.{node_object_name}
use multiprox.Ceph.Plan.Scripts.{ceph_plan-script}
use multiprox.Errors.{ok}
use multiprox.Controller.Kube.{Key, Call, delete_node, Kube}
use multiprox.Controller.Pass.Keeps.{Assertion}
use multiprox.Controller.Status.Stable.{IsPlain, MayExec}
use multiprox.Controller.Nodes.{is_desired}
use multiprox.Controller.Steps.Keeps.{Stable-join}
use multiprox.Controller.Reconcile.{reconcile}
use multiprox.Controller.Reconcile.Fetched.{fresh_run, reconcile-All}
use multiprox.Controller.Reconcile.Frame.{Keeps-start_from}
use multiprox.Controller.Reconcile.Permits.{Permits, Permits-Frame}
use multiprox.Controller.Reconcile.Conditions.{Laws}

-- a deleted ProxmoxNode is none of the nodes that the spec asks for
abbrev pub PrunesRemoved : ProxmoxCluster → Call → Type 0
PrunesRemoved cluster (delete_node key) =
    All (λ i. key.name ≢ node_object_name cluster i) (indices cluster.spec.nodes)
PrunesRemoved cluster _ = Unit

or_false : (a b : Bool) → a || b ≡ false → (a ≡ false) × (b ≡ false)
or_false a b h = ground arith

not_name : (name x y : String) → x ≡ y → (x == name) ≡ false → name ≢ y
not_name name x y p h e = ground (arith, eq_iff x name)

not_desired :
    (name : String) (cluster d : ProxmoxCluster)
    → d.meta.name ≡ cluster.meta.name
    → (is : List ℕ) → is_desired name (map (node_object_name d) is) ≡ false
    → All (λ i. name ≢ node_object_name cluster i) is
unfolding is_desired node_object_name
not_desired name cluster d p [] h = tt
not_desired name cluster d p (i ∷ is) h =
    let (here, later) = or_false (node_object_name d i == name) _ h in
    (
      not_name name (node_object_name d i) _ (ap (λ n. n +++ "-" +++ show_ℕ i) p) here,
      not_desired name cluster d p is later,
    )

module _ (cluster : ProxmoxCluster) where
  abbrev SameNodes : Assertion
  SameNodes v = (v.name ≡ cluster.meta.name) × (v.spec ≡ cluster.spec)

  plain : (c : Call) → IsPlain c → PrunesRemoved cluster c
  plain (delete_node _) p = absurd p
  plain _ p = tt

  Prunes-Permits : (k : Kube) → Laws k → Permits k (PrunesRemoved cluster) SameNodes
  Prunes-Permits k laws = record {
    retry = laws.retry;
    plain = plain;
    write = λ phase c latest h. tt;
    set = λ type p v now c q h. h;
    put_ceph = λ v st h. h;
    initialize = λ key. tt;
    inventory = λ key. tt;
    plan = λ c h. ceph_plan-script (MayExec (PrunesRemoved cluster)) c (λ ceph p. record {
      init = λ key. tt;
      mon = λ key. tt;
      mgr = λ key. tt;
      osd = λ key. tt;
      pool = λ key. tt;
    });
    ceph_status = λ c ceph h p key. tt;
    prune = λ c key h p. not_desired key.name cluster c h.0 (indices cluster.spec.nodes) (
        subst (λ s. is_desired key.name (map (node_object_name c) (indices s.nodes)) ≡ false) h.1
          p);
    join_nodes = λ c h p.
        Stable-join k laws.retry plain (λ phase q d latest h. tt) (λ key. tt) (λ v now c q h. h)
          (λ v now c q h. h);
  }

-- Whatever the API server answers, and where the libraries behave as documented, a pass deletes no
-- ProxmoxNode that bears the name of a node below the node count of the fetched spec.
pub reconcile-PrunesRemoved :
    (k : Kube) (key : Key) (cluster nothing : ProxmoxCluster)
    → Laws k
    → k.server.on_get_cluster [] key ≡ ok cluster
    → All (PrunesRemoved cluster) (reconcile k key (fresh_run nothing)).1.history
reconcile-PrunesRemoved k key cluster nothing laws fetched =
    reconcile-All k key cluster nothing fetched tt
      (Keeps-start_from k (Permits-Frame k (Prunes-Permits cluster k laws)) cluster (refl, refl))

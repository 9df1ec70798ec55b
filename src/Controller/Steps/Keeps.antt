-- ===== src/Controller/Steps/Keeps.antt =====
-- What steps 8 to 10 of `Reconcile` in proxmoxcluster_controller.go keep, where setting a condition
-- keeps it.
use multiprox.Prelude.{◌≡◌, refl, ℕ, suc, String, Bool, Option, none, some, List, [], ◌∷◌}
use multiprox.Api.Meta.{Time, Condition}
use multiprox.Api.Cluster
use multiprox.Api.Cluster.{
  Phase, CephSpec, CephStatus, ProxmoxCluster, condition_cluster_initialized,
  condition_all_nodes_joined, condition_quorum_healthy, condition_ceph_initialized,
  condition_ceph_mons_ready, condition_ceph_osds_ready, condition_ceph_pools_ready,
  condition_ceph_healthy,
}
use multiprox.Errors.{Error}
use multiprox.Controller.Kube.{Call, Pass, Kube}
use multiprox.Controller.Pass.Keeps.{View, Assertion, Stable, IsRetry}
use multiprox.Controller.Status.Stable.{
  IsPlain, MayExec, MayWrite, Stable-pure, Stable-bind, Stable-the_cluster, Stable-modify,
  Stable-exec_script, Stable-update_status, Keeps-set_condition, with_conditions,
}
use multiprox.Controller.Status.{set_condition, exec_script, update_status}
use multiprox.Controller.Steps.{
  set_joined_nodes, initialize, finish_init, next_join, join_nodes, finish_join, join,
}

-- a condition of this type may be set, with whatever value
abbrev pub MaySet : Kube → Assertion → String → Type 0
MaySet k J type =
    (v : View) (now : Time) (c : Condition)
    → c.type ≡ type
    → J v
    → J (with_conditions v (k.set_status_condition now v.conditions c))

abbrev pub IsWaiting : Phase → Type 0
IsWaiting Cluster.ready = ⊥
IsWaiting _ = Unit

-- every phase but `ready` may be written
abbrev pub MayWait : (Call → Type 0) → Assertion → Type 0
MayWait P J = (phase : Phase) → IsWaiting phase → MayWrite P J phase

module _ (k : Kube) (retry : IsRetry k.retry_on_conflict) {P : Call → Type 0} {J : Assertion}
    (plain : (c : Call) → IsPlain c → P c) where
  pub Stable-set_condition :
      (type : String) (value : Bool) (true_reason false_reason message : String)
      → MaySet k J type
      → Stable P J (set_condition k type value true_reason false_reason message)
  Stable-set_condition type value true_reason false_reason message may =
      Keeps-set_condition k type value true_reason false_reason message
        (λ v now generation j. may v now _ refl j)

  pub Stable-exec :
      (ordinal : ℕ) (script : String) → MayExec P script → Stable P J (exec_script k ordinal script)
  Stable-exec ordinal script may = Stable-exec_script k ordinal script (λ key. plain _ tt) may

  pub Stable-write : (phase : Phase) → MayWrite P J phase → Stable P J (update_status k phase)
  Stable-write phase w = Stable-update_status k retry (λ key. plain _ tt) phase w

  module _ (wait : MayWait P J) where
    Stable-finish_init :
        MaySet k J condition_cluster_initialized
        → (error : Option Error) → Stable P J (finish_init k error)
    Stable-finish_init set none = Stable-bind (Stable-set_condition _ _ _ _ _ set) (λ _.
        Stable-bind (Stable-modify (set_joined_nodes 1) (λ c j. j))
          (λ _. Stable-bind (Stable-write Cluster.joining (wait _ tt)) (λ _. Stable-pure _)))
    Stable-finish_init set (some e) =
        Stable-bind (Stable-set_condition _ _ _ _ _ set)
          (λ _. Stable-bind (Stable-write Cluster.failed (wait _ tt)) (λ _. Stable-pure _))

    pub Stable-initialize :
        MayExec P "/scripts/cluster-init.sh"
        → MaySet k J condition_cluster_initialized
        → Stable P J (initialize k)
    unfolding initialize
    Stable-initialize may set =
        Stable-bind (Stable-write Cluster.initializing (wait _ tt))
          (λ _. Stable-bind (Stable-exec 0 _ may) (λ reply. Stable-finish_init set reply.1))

    Stable-next_join :
        (joined : ℕ) {rest : Pass (ℕ × Option Error)}
        → Stable P J rest
        → (error : Option Error) → Stable P J (next_join k joined rest error)
    Stable-next_join joined rest none = rest
    Stable-next_join joined rest (some e) = Stable-pure _

    Stable-join_nodes :
        MayExec P "/scripts/cluster-join.sh"
        → (joined : ℕ) (ordinals : List ℕ) → Stable P J (join_nodes k joined ordinals)
    unfolding join_nodes
    Stable-join_nodes may joined [] = Stable-pure _
    Stable-join_nodes may joined (i ∷ is) =
        Stable-bind (Stable-exec i _ may)
          (λ reply. Stable-next_join joined (Stable-join_nodes may (suc joined) is) reply.1)

    Stable-finish_join :
        MaySet k J condition_all_nodes_joined
        → MaySet k J condition_quorum_healthy
        → (cluster : ProxmoxCluster) (out : ℕ × Option Error)
        → Stable P J (finish_join k cluster out)
    Stable-finish_join all quorum cluster (joined, some e) =
        Stable-bind (Stable-modify (set_joined_nodes joined) (λ c j. j))
          (λ _. Stable-bind (Stable-write Cluster.joining (wait _ tt)) (λ _. Stable-pure _))
    Stable-finish_join all quorum cluster (joined, none) =
        Stable-bind (Stable-modify (set_joined_nodes joined) (λ c j. j)) (λ _.
          Stable-bind (Stable-set_condition _ _ _ _ _ all) (λ _.
            Stable-bind (Stable-set_condition _ _ _ _ _ quorum)
              (λ _. Stable-bind (Stable-write Cluster.joining (wait _ tt)) (λ _. Stable-pure _))))

    pub Stable-join :
        MayExec P "/scripts/cluster-join.sh"
        → MaySet k J condition_all_nodes_joined
        → MaySet k J condition_quorum_healthy
        → Stable P J (join k)
    unfolding join
    Stable-join may all quorum = Stable-bind (Stable-write Cluster.joining (wait _ tt)) (λ _.
        Stable-bind Stable-the_cluster (λ cluster.
          Stable-bind (Stable-join_nodes may 1 _)
            (λ out. Stable-finish_join all quorum cluster out)))

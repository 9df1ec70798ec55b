-- ===== src/Controller/Progress/Stages.antt =====
-- Steps 8 and 9 of `Reconcile` in proxmoxcluster_controller.go where the server answers and the
-- scripts succeed.
use multiprox.Prelude.{
  ◌≡◌, refl, ap, ◌∙◌, ◌∷◌, [], List, String, Bool, true, false, Option, some, none, ℕ, suc, ◌==◌,
  if◌then◌else◌,
}
use multiprox.Api.Meta.{Time}
use multiprox.Api.Cluster
use multiprox.Api.Cluster.{
  Phase, ProxmoxCluster, ProxmoxClusterSpec, condition_cluster_initialized,
  condition_all_nodes_joined, condition_quorum_healthy,
}
use multiprox.Errors.{Error}
use multiprox.Controller.Kube.{Run, Kube, Pass}
use multiprox.Controller.Pass.{pure, ◌>>◌}
use multiprox.Controller.Status.{exec_script}
use multiprox.Controller.Status.{new_condition, with_condition, set_condition, update_status}
use multiprox.Controller.Steps.{
  Requeue, requeue_short, initialize, finish_init, join, join_nodes, next_join, finish_join,
  later_indices, set_joined_nodes,
}
use multiprox.Controller.Steps.Completes.{Responds}
use multiprox.Controller.Reconcile.Conditions.{Laws}
use multiprox.Controller.Progress.{
  Claim, Does, Does-relax, Does-pure, Does-bind, Does-modify, Does-the_cluster,
}
use multiprox.Controller.Progress.Status.{
  stored, Stores, Does-set_condition, Does-update_status, Does-exec_script,
}

-- The server stores what is written, scripts succeed, and the libraries behave as documented.
pub record Cooperates (k : Kube) (before : ProxmoxCluster) : Type 0 where
  pub laws : Laws k
  pub responds : Responds k
  pub stores : Stores k before

module _ (k : Kube) (before : ProxmoxCluster) (spec : ProxmoxClusterSpec) where
  -- how far the cluster in memory has come, by its conditions; the stored one has the same spec and
  -- is not being deleted
  pub record At (initialized joined : Bool) (s : Run) : Type 0 where
    pub same_spec : s.cluster.spec ≡ spec
    pub is_initialized :
        k.is_status_condition_true s.cluster.status.conditions condition_cluster_initialized
        ≡ initialized
    pub is_joined :
        k.is_status_condition_true s.cluster.status.conditions condition_all_nodes_joined ≡ joined
    pub stored_spec : (stored before s.history).spec ≡ spec
    pub alive : (stored before s.history).meta.deletion_timestamp ≡ none

  -- a step that changes neither the spec nor the conditions, nor what is stored
  pub At-same :
      {i j : Bool} (s s' : Run)
      → s'.cluster.spec ≡ s.cluster.spec
      → s'.cluster.status.conditions ≡ s.cluster.status.conditions
      → stored before s'.history ≡ stored before s.history
      → At i j s
      → At i j s'
  At-same s s' p q r a = record {
    same_spec = p ∙ a.same_spec;
    is_initialized =
        ap (λ cs. k.is_status_condition_true cs condition_cluster_initialized) q ∙ a.is_initialized;
    is_joined = ap (λ cs. k.is_status_condition_true cs condition_all_nodes_joined) q ∙ a.is_joined;
    stored_spec = ap (λ c. c.spec) r ∙ a.stored_spec;
    alive = ap (λ c. c.meta.deletion_timestamp) r ∙ a.alive;
  }

module _ (k : Kube) (before : ProxmoxCluster) (coop : Cooperates k before)
    (spec : ProxmoxClusterSpec) where
  laws : Laws k
  laws = coop.laws

  abbrev Stage : Bool → Bool → Claim
  Stage = At k before spec

  -- the conditions of a cluster where one was set
  set_status :
      (now : Time) (c : ProxmoxCluster) (type : String) (status : Bool) (tr fr message : String)
      (other : String)
      → k.is_status_condition_true
          (with_condition k now
            (new_condition type status tr fr message c.meta.generation)
            c).status.conditions
          other
        ≡ (if type == other then status else k.is_status_condition_true c.status.conditions other)
  set_status now c type true tr fr message other = laws.condition now c.status.conditions _ other
  set_status now c type false tr fr message other = laws.condition now c.status.conditions _ other

  pub Does-At-set :
      (i j i' j' : Bool) (type : String) (status : Bool) (tr fr message : String)
      → (if type == condition_cluster_initialized then status else i) ≡ i'
      → (if type == condition_all_nodes_joined then status else j) ≡ j'
      → Does
          (At k before spec i j)
          (set_condition k type status tr fr message)
          (λ _. At k before spec i' j')
  Does-At-set i j i' j' type status tr fr message p q =
      Does-set_condition k type status tr fr message (λ s a. record {
        same_spec = a.same_spec;
        is_initialized =
            set_status (k.server.now s.history) s.cluster type status tr fr message
              condition_cluster_initialized
            ∙ ap (λ b. if type == condition_cluster_initialized then status else b) a.is_initialized
            ∙ p;
        is_joined =
            set_status (k.server.now s.history) s.cluster type status tr fr message
              condition_all_nodes_joined
            ∙ ap (λ b. if type == condition_all_nodes_joined then status else b) a.is_joined
            ∙ q;
        stored_spec = a.stored_spec;
        alive = a.alive;
      })

  -- a stage and a phase, and that the server has this status
  abbrev pub Within : Bool → Bool → Phase → Claim
  Within i j phase s =
      At k before spec i j s
      × (s.cluster.status.phase ≡ phase)
      × ((stored before s.history).status ≡ s.cluster.status)

  -- the end of a round: the requeue, the stage and the phase
  abbrev pub Ends_in : Bool → Bool → Phase → Requeue → Requeue → Claim
  Ends_in i j phase requeue r s = (r ≡ requeue) × Within i j phase s

  -- the phase is written, and the stage stays
  pub Does-At-phase :
      (i j : Bool) (phase : Phase)
      → Does (At k before spec i j) (update_status k phase) (λ _. Within i j phase)
  unfolding stored
  Does-At-phase i j phase = Does-update_status k coop.stores laws.retry phase (λ v s a. (
    record {
      same_spec = a.same_spec;
      is_initialized = a.is_initialized;
      is_joined = a.is_joined;
      stored_spec = a.stored_spec;
      alive = a.alive;
    },
    refl,
    refl,
  ))

  pub Does-At-exec :
      (i j : Bool) (n : ℕ) (script : String)
      → Does
          (At k before spec i j)
          (exec_script k n script)
          (λ reply s. At k before spec i j s × (reply.1 ≡ none))
  unfolding stored
  Does-At-exec i j n script =
      Does-exec_script k coop.responds n script
        (λ s a. (At-same k before spec s _ refl refl refl a, refl))

  pub Does-finish :
      (i j : Bool) (phase : Phase) (requeue : Requeue)
      → Does
          (At k before spec i j)
          (update_status k phase >> pure requeue)
          (Ends_in i j phase requeue)
  Does-finish i j phase requeue = Does-bind (Does-At-phase i j phase) (λ _.
      Does-relax (λ c h. (refl, h)) (λ r c h. h)
        (Does-pure {K = Ends_in i j phase requeue} requeue))

  -- what follows a script that cannot have failed
  pub after_success :
      {A : Type 0} (J : Claim) (K : A → Claim) (f : Option Error → Pass A)
      → Does J (f none) K
      → (error : Option Error) → Does (λ c. J c × (error ≡ none)) (f error) K
  after_success J K f d none = Does-relax (λ c h. h.0) (λ a c h. h) d
  after_success J K f d (some e) = record { run = λ s h. absurd (let wrong = h.1 in cc) }

  Does-finish_init :
      (j : Bool)
      → Does
          (At k before spec false j)
          (finish_init k none)
          (Ends_in true j Cluster.joining requeue_short)
  Does-finish_init j =
      Does-bind (Does-At-set false j true j condition_cluster_initialized true _ _ _ refl refl)
        (λ _.
          Does-bind
            (Does-modify (set_joined_nodes 1) (λ s a. At-same k before spec s _ refl refl refl a))
            (λ _. Does-finish true j Cluster.joining requeue_short))

  -- step 8
  pub Does-initialize :
      (j : Bool)
      → Does
          (At k before spec false j)
          (initialize k)
          (Ends_in true j Cluster.joining requeue_short)
  unfolding initialize
  Does-initialize j = Does-bind (Does-At-phase false j Cluster.initializing) (λ _.
      Does-bind (Does-relax (λ c h. h.0) (λ r c h. h) (Does-At-exec false j 0 _)) (λ reply.
        after_success (At k before spec false j) _ (finish_init k) (Does-finish_init j) reply.1))

  Does-join_nodes :
      (count : ℕ) (is : List ℕ)
      → Does
          (At k before spec true false)
          (join_nodes k count is)
          (λ out c. At k before spec true false c × (out.1 ≡ none))
  unfolding join_nodes
  Does-join_nodes count [] =
      Does-relax (λ c h. (h, refl)) (λ r c h. h)
        (Does-pure {K = λ out c. At k before spec true false c × (out.1 ≡ none)} (count, none))
  Does-join_nodes count (i ∷ is) = Does-bind (Does-At-exec true false i _) (λ reply.
      after_success (At k before spec true false) _
        (next_join k count (join_nodes k (suc count) is)) (Does-join_nodes (suc count) is) reply.1)

  Does-finish_join :
      (cluster : ProxmoxCluster) (count : ℕ)
      → Does
          (At k before spec true false)
          (finish_join k cluster (count, none))
          (Ends_in true true Cluster.joining requeue_short)
  Does-finish_join cluster count =
      Does-bind
        (Does-modify (set_joined_nodes count) (λ s a. At-same k before spec s _ refl refl refl a))
        (λ _.
          Does-bind
            (Does-At-set true false true true condition_all_nodes_joined true _ _ _ refl refl)
            (λ _.
              Does-bind
                (Does-At-set true true true true condition_quorum_healthy true _ _ _ refl refl)
                (λ _. Does-finish true true Cluster.joining requeue_short)))

  -- step 9
  pub Does-join :
      Does (At k before spec true false) (join k) (Ends_in true true Cluster.joining requeue_short)
  unfolding join
  Does-join = Does-bind (Does-At-phase true false Cluster.joining) (λ _.
      Does-bind (Does-relax (λ c h. h.0) (λ r c h. h.0) Does-the_cluster) (λ cluster.
        Does-bind (Does-join_nodes 1 (later_indices cluster.spec.nodes)) (λ out.
          after_success (At k before spec true false) _ (λ e. finish_join k cluster (out.0, e))
            (Does-finish_join cluster out.0) out.1)))

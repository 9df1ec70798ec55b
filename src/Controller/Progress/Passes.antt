-- ===== src/Controller/Progress/Passes.antt =====
-- `Reconcile` of proxmoxcluster_controller.go, pass after pass, against a server that stores what is
-- written.
use multiprox.Prelude.{◌≡◌, refl, ap, ◌∙◌, sym, subst, [], Bool, true, false, ◌||◌, none, ℕ}
use multiprox.Prelude.Int.{pos}
use multiprox.Api.Cluster
use multiprox.Api.Cluster.{
  ProxmoxCluster, ProxmoxClusterSpec, condition_cluster_initialized, condition_all_nodes_joined,
}
use multiprox.Ceph.Validate.{validate_ceph}
use multiprox.Errors.{Result, ok, err}
use multiprox.Controller.Kube.{Key, Run, Kube}
use multiprox.Controller.Pass.{deferred, modify, ◌>>=◌}
use multiprox.Controller.Status.{fetch_cluster}
use multiprox.Controller.Nodes.{reconcile_nodes}
use multiprox.Controller.Steps.{Requeue, requeue_long}
use multiprox.Controller.Reconcile.{validated, handle, start_from, converge, reconcile}
use multiprox.Controller.Progress.{
  Claim, Does, Reaches, Does-relax, Does-bind, Does-modify, Does-the_cluster, Does-request,
  Does-attempt, Does-deferred,
}
use multiprox.Controller.Progress.Status.{stored}
use multiprox.Controller.Progress.Stages.{At, Within}
use multiprox.Controller.Progress.Quiet.{Quiet-reconcile_nodes}
use multiprox.Controller.Progress.Provision.{Provides, Does-provision, Does-ensure_finalizer}
use multiprox.Controller.Progress.Ready.{Advanced, Does-converge}
use multiprox.Controller.Progress.Ceph.{Converges}

-- What a cluster needs to come up: a server that stores what is written and answers with all pods
-- ready, scripts that succeed, a Ceph that gets usable, and a spec that is valid.
pub record Favours (k : Kube) (before : ProxmoxCluster) : Type 0 where
  pub converges : Converges k before before.spec
  pub provides : Provides k
  pub valid : (c : ProxmoxCluster) → c.spec ≡ before.spec → validate_ceph c ≡ none
  pub count : ℕ
  pub nodes : before.spec.nodes ≡ pos count

module _ (k : Kube) (before : ProxmoxCluster) (env : Favours k before) where
  -- a stored cluster with the spec, not being deleted, and at this stage
  record Holds (i j : Bool) (c : ProxmoxCluster) : Type 0 where
    pub same_spec : c.spec ≡ before.spec
    pub alive : c.meta.deletion_timestamp ≡ none
    pub is_initialized :
        k.is_status_condition_true c.status.conditions condition_cluster_initialized ≡ i
    pub is_joined : k.is_status_condition_true c.status.conditions condition_all_nodes_joined ≡ j

  abbrev Stage : Bool → Bool → Claim
  Stage = At k before before.spec

  abbrev Holding : Bool → Bool → Claim
  Holding i j s = Holds i j (stored before s.history)

  -- what the server holds after a pass
  abbrev After : Bool → Bool → Requeue → Claim
  After false j r s = Holding true j s
  After true false r s = Holding true true s
  After true true r s =
      (r ≡ requeue_long)
      × ((stored before s.history).status.phase ≡ Cluster.ready)
      × Holding true true s

  holding :
      (i j : Bool) (phase : Cluster.Phase) (s : Run)
      → Within k before env.converges.cooperates before.spec i j phase s
      → Holding i j s
  holding i j phase s (a, _, synced) = record {
    same_spec = a.stored_spec;
    alive = a.alive;
    is_initialized =
        ap (λ st. k.is_status_condition_true st.conditions condition_cluster_initialized) synced
        ∙ a.is_initialized;
    is_joined =
        ap (λ st. k.is_status_condition_true st.conditions condition_all_nodes_joined) synced
        ∙ a.is_joined;
  }

  after :
      (i j : Bool) (r : Requeue) (s : Run)
      → Advanced k before before.spec env.converges i j r s
      → After i j r s
  after false j r s h = holding true j _ s h.1
  after true false r s h = holding true true _ s h.1
  after true true r s h = (h.0, ap (λ st. st.phase) h.1.2 ∙ h.1.1, holding true true _ s h.1)

  -- it speaks of what is stored alone
  After-stored :
      (i j : Bool) (r : Requeue) (s s' : Run)
      → stored before s'.history ≡ stored before s.history
      → After i j r s
      → After i j r s'
  After-stored false j r s s' e h = subst (Holds true j) (sym e) h
  After-stored true false r s s' e h = subst (Holds true true) (sym e) h
  After-stored true true r s s' e (p, q, h) =
      (p, ap (λ c. c.status.phase) e ∙ q, subst (Holds true true) (sym e) h)

  refreshed :
      (i j : Bool) → Does (Stage i j) (deferred (converge k) (reconcile_nodes k)) (After i j)
  refreshed i j =
      Does-deferred (reconcile_nodes k) (Does-converge k before before.spec env.converges i j)
        (λ r s h.
          After-stored i j r s (reconcile_nodes k s).1 ((Quiet-reconcile_nodes before k).kept s)
            (after i j r s h))

  Does-validated :
      (i j : Bool) (cluster : ProxmoxCluster)
      → cluster.spec ≡ before.spec
      → Does (Stage i j) (validated k (validate_ceph cluster)) (After i j)
  Does-validated i j cluster same = rw (env.valid cluster same) (
      Does-bind (Does-provision k before before.spec env.provides i j env.count env.nodes)
        (λ _. refreshed i j))

  Does-handle : (i j : Bool) → Does (Stage i j) (handle k none) (After i j)
  Does-handle i j =
      Does-bind {K = λ c s. Stage i j s × (c ≡ s.cluster)} Does-the_cluster (λ cluster. record {
        run = λ s h.
            let coop = env.converges.cooperates in
            (Does-bind
                (Does-ensure_finalizer k before before.spec env.provides i j coop.stores
                  coop.laws.retry cluster.meta.finalizers)
                (λ _. Does-validated i j cluster (ap (λ d. d.spec) h.1 ∙ h.0.same_spec))).run
              s h.0;
      })

  Does-start_from :
      (i j : Bool) (fetched : Result ProxmoxCluster)
      → Does
          (λ s. Holding i j s × (fetched ≡ ok (stored before s.history)))
          (start_from k fetched)
          (After i j)
  Does-start_from i j (ok cluster) = record {
    run = λ s h.
        let same : cluster ≡ stored before s.history = (let e = h.1 in cc) in
        let alive = ap (λ c. c.meta.deletion_timestamp) same ∙ h.0.alive in
        subst (λ d. Reaches (modify (λ _. cluster) >>= λ _. handle k d) s (After i j)) (sym alive)
          ((Does-bind (Does-modify (λ _. cluster) taken) (λ _. Does-handle i j)).run s (h.0, same));
  }
    where
      taken :
          (s : Run)
          → Holding i j s × (cluster ≡ stored before s.history)
          → Stage i j (record s { cluster = cluster })
      taken s h = record {
        same_spec = ap (λ c. c.spec) h.1 ∙ h.0.same_spec;
        is_initialized =
            ap (λ c. k.is_status_condition_true c.status.conditions condition_cluster_initialized)
              h.1
            ∙ h.0.is_initialized;
        is_joined =
            ap (λ c. k.is_status_condition_true c.status.conditions condition_all_nodes_joined) h.1
            ∙ h.0.is_joined;
        stored_spec = h.0.same_spec;
        alive = h.0.alive;
      }
  Does-start_from i j (err e) = record { run = λ s h. absurd (let wrong = h.1 in cc) }

  Does-reconcile : (key : Key) (i j : Bool) → Does (Holding i j) (reconcile k key) (After i j)
  unfolding reconcile fetch_cluster stored
  Does-reconcile key i j =
      let stores = env.converges.cooperates.stores in
      Does-bind
        (Does-attempt (
          Does-request {K = λ c s. Holding i j s × (c ≡ stored before s.history)} _ _
            (λ h. (stored before h, stores.fetched h key))
            (λ s c e h. (h, (let e' = stores.fetched s.history key in cc)))))
        (λ found.
          Does-relax (λ s h. (h.2.0, h.1 ∙ ap ok h.2.1)) (λ r s h. h) (Does-start_from i j found))

  abbrev pub IsReady : Requeue → Claim
  IsReady r s = (r ≡ requeue_long) × ((stored before s.history).status.phase ≡ Cluster.ready)

  again : (i j : Bool) (r : Requeue) (s : Run) → After i j r s → Holding true (i || j) s
  again false j r s h = h
  again true false r s h = h
  again true true r s h = h.2

  Does-passes :
      (key : Key) (i j : Bool)
      → Does
          (Holding i j)
          (reconcile k key >>= λ _. reconcile k key >>= λ _. reconcile k key)
          IsReady
  Does-passes key i j = Does-bind (Does-relax (λ s h. h) (again i j) (Does-reconcile key i j)) (λ _.
      Does-bind (Does-relax (λ s h. h) (again true (i || j)) (Does-reconcile key true (i || j)))
        (λ _. Does-relax (λ s h. h) (λ r s h. (h.0, h.1)) (Does-reconcile key true true)))

  -- Where the server stores what is written and answers with all pods ready, scripts succeed, Ceph is
  -- usable whenever its status is read, the spec is valid with a number of nodes that is not
  -- negative (Favours), and the cluster is not being deleted: from whatever status the server holds
  -- at first, three passes in a row end with a result, the last one asks for the long requeue, and
  -- the server then holds the phase Ready.
  pub reconcile-IsReady :
      (key : Key) (nothing : ProxmoxCluster)
      → before.meta.deletion_timestamp ≡ none
      → Reaches
          (reconcile k key >>= λ _. reconcile k key >>= λ _. reconcile k key)
          (record { history = []; cluster = nothing })
          IsReady
  unfolding stored
  reconcile-IsReady key nothing alive =
      (Does-passes key _ _).run (record { history = []; cluster = nothing })
        (record { same_spec = refl; alive = alive; is_initialized = refl; is_joined = refl })

-- ===== src/Controller/Progress/Provision.antt =====
-- Steps 2 and 4 to 6 of `Reconcile` in proxmoxcluster_controller.go where the server takes the
-- finalizer and the objects.
use multiprox.Prelude.{
  ◌≡◌, refl, ap, ◌∙◌, ◌⊎◌, inl, inr, Option-cases, sym, subst, ◌∷◌, List, String, Bool, true, false,
  some, ℕ, if◌then◌else◌,
}
use multiprox.Prelude.Int.{pos}
use multiprox.Api.Meta.{ObjectMeta}
use multiprox.Api.Cluster.{ProxmoxCluster, ProxmoxClusterSpec}
use multiprox.Workload.Objects.{Service, ConfigMap, StatefulSet}
use multiprox.Workload.Services.{headless_service, ui_service}
use multiprox.Workload.StatefulSet.{stateful_set}
use multiprox.Workload.ConfigMap.{config_map, render_corosync, corosync_nodes}
use multiprox.Errors.{Error, Result, ok, err, is_not_found}
use multiprox.Controller.Kube.{Key, key_of, Call, History, Kube, Pass}
use multiprox.Controller.Pass.{with_context, raise, pure, request, attempt, ◌>>=◌, ◌>>◌}
use multiprox.Controller.Pass.Keeps.{IsRetry}
use multiprox.Controller.Status.{
  fetch_cluster, write_added, write_finalizer, add_finalizer, finalizer_name,
}
use multiprox.Controller.Ensure.{
  owned, apply_service, ensure_service, apply_config_map, ensure_config_map, apply_stateful_set,
  ensure_stateful_set,
}
use multiprox.Controller.Reconcile.{ensure_finalizer, ensure_built, provision}
use multiprox.Controller.Progress.{
  Claim, Does, Does-relax, Does-pure, Does-if, Does-bind, Does-modify, Does-the_cluster,
  Does-request, Does-with_context, Does-lift,
}
use multiprox.Controller.Progress.Status.{stored, retried, Stores}
use multiprox.Controller.Progress.Stages.{At, At-same}

-- an object, or that there is none
abbrev pub Answered : {A : Type 0} → Result A → Type 0
Answered {A} r = ((a : A) × (r ≡ ok a)) ⊎ ((e : Error) × (r ≡ err e) × (is_not_found e ≡ true))

missing : {A : Type 0} (e : Error) → Answered {A = A} (err e) → is_not_found e ≡ true
missing e (inl (a, wrong)) = absurd (cc)
missing e (inr (e', same, h)) =
    let equal : e ≡ e' = cc in subst (λ x. is_not_found x ≡ true) (sym equal) h

-- The server answers the reads of the objects, takes their writes, and the owner can be set.
pub record Provides (k : Kube) : Type 0 where
  pub owner :
      (c : ProxmoxCluster) (meta : ObjectMeta)
      → (m : ObjectMeta) × (k.set_controller_reference c meta ≡ ok m)
  pub service : (h : History) (key : Key) → Answered (k.server.on_get_service h key)
  pub service_written :
      (h : History) (o : Service) → (o' : Service) × (k.server.on_write_service h o ≡ ok o')
  pub files : (h : History) (key : Key) → Answered (k.server.on_get_config_map h key)
  pub files_written :
      (h : History) (o : ConfigMap) → (o' : ConfigMap) × (k.server.on_write_config_map h o ≡ ok o')
  pub set : (h : History) (key : Key) → Answered (k.server.on_get_stateful_set h key)
  pub set_written :
      (h : History) (o : StatefulSet)
      → (o' : StatefulSet) × (k.server.on_write_stateful_set h o ≡ ok o')

module _ (k : Kube) (before : ProxmoxCluster) (spec : ProxmoxClusterSpec) (p : Provides k)
    (i j : Bool) where
  abbrev Stage : Claim
  Stage = At k before spec i j

  -- a call that is no write of the cluster
  Does-plain :
      {A : Type 0} (call : Call) (answer : History → Result A)
      → ((h : History) → stored before (call ∷ h) ≡ stored before h)
      → ((h : History) → (a : A) × (answer h ≡ ok a))
      → Does Stage (request call answer) (λ _. Stage)
  Does-plain call answer quiet f =
      Does-request call answer f
        (λ s a e h. At-same k before spec s _ refl refl (quiet s.history) h)

  -- a read that finds an object or none
  Does-read :
      {A : Type 0} (call : Call) (answer : History → Result A)
      → ((h : History) → stored before (call ∷ h) ≡ stored before h)
      → ((h : History) → Answered (answer h))
      → Does Stage (attempt (request call answer)) (λ found s. Stage s × Answered found)
  unfolding attempt request
  Does-read call answer quiet f = record {
    run = λ s h. (
      answer s.history,
      record s { history = call ∷ s.history },
      refl,
      (At-same k before spec s _ refl refl (quiet s.history) h, f s.history),
    );
  }

  Does-owned : (meta : ObjectMeta) → Does Stage (owned k meta) (λ _. Stage)
  Does-owned meta =
      Does-bind (Does-relax (λ s h. h) (λ c s h. h.0) Does-the_cluster)
        (λ c. let (m, e) = p.owner c meta in Does-lift _ m e)

  Does-done :
      {A : Type 0} {m : Pass A}
      → Does Stage m (λ _. Stage)
      → Does Stage (m >>= λ _. pure tt) (λ _. Stage)
  Does-done d = Does-bind d (λ _. Does-pure {K = λ _. Stage} tt)

  -- the object is created only where there is none
  Does-create :
      {A : Type 0} (e : Error) (m : Pass (Unit {0}))
      → Does Stage m (λ _. Stage)
      → Does
          (λ s. Stage s × Answered {A = A} (err e))
          (if is_not_found e then m else raise e)
          (λ _. Stage)
  Does-create e m d = record { run = λ s h. rw (missing e h.1) (d.run s h.0) }

  Does-written :
      {A : Type 0} (call : Call) (answer : History → Result A)
      → ((h : History) → stored before (call ∷ h) ≡ stored before h)
      → ((h : History) → (a : A) × (answer h ≡ ok a))
      → Does Stage (request call answer >>= λ _. pure tt) (λ _. Stage)
  Does-written call answer quiet f =
      Does-bind (Does-plain call answer quiet f) (λ _. Does-pure {K = λ _. Stage} tt)

  Does-apply_service :
      (desired : Service) (found : Result Service)
      → Does (λ s. Stage s × Answered found) (apply_service k desired found) (λ _. Stage)
  unfolding stored
  Does-apply_service desired (ok existing) =
      Does-relax (λ s h. h.0) (λ a s h. h)
        (Does-written _ _ (λ h. refl) (λ h. p.service_written h _))
  Does-apply_service desired (err e) =
      Does-create {A = Service} e _ (Does-written _ _ (λ h. refl) (λ h. p.service_written h _))

  Does-ensure_service : (o : Service) → Does Stage (ensure_service k o) (λ _. Stage)
  unfolding ensure_service stored
  Does-ensure_service o = Does-bind (Does-owned o.meta) (λ meta.
      Does-bind (Does-read _ _ (λ h. refl) (λ h. p.service h _))
        (Does-apply_service (record o { meta = meta })))

  Does-apply_config_map :
      (desired : ConfigMap) (found : Result ConfigMap)
      → Does (λ s. Stage s × Answered found) (apply_config_map k desired found) (λ _. Stage)
  unfolding stored
  Does-apply_config_map desired (ok existing) =
      Does-relax (λ s h. h.0) (λ a s h. h)
        (Does-if (k.deep_equal_map existing.data_of desired.data_of) _ _
          (λ _. Does-pure {K = λ _. Stage} tt)
          (λ _. Does-written _ _ (λ h. refl) (λ h. p.files_written h _)))
  Does-apply_config_map desired (err e) =
      Does-create {A = ConfigMap} e _ (Does-written _ _ (λ h. refl) (λ h. p.files_written h _))

  Does-ensure_config_map : (o : ConfigMap) → Does Stage (ensure_config_map k o) (λ _. Stage)
  unfolding ensure_config_map stored
  Does-ensure_config_map o = Does-bind (Does-owned o.meta) (λ meta.
      Does-bind (Does-read _ _ (λ h. refl) (λ h. p.files h _))
        (Does-apply_config_map (record o { meta = meta })))

  Does-apply_stateful_set :
      (desired : StatefulSet) (found : Result StatefulSet)
      → Does (λ s. Stage s × Answered found) (apply_stateful_set k desired found) (λ _. Stage)
  unfolding stored
  Does-apply_stateful_set desired (ok existing) =
      Does-relax (λ s h. h.0) (λ a s h. h) (Does-written _ _ (λ h. refl) (λ h. p.set_written h _))
  Does-apply_stateful_set desired (err e) =
      Does-create {A = StatefulSet} e _ (Does-written _ _ (λ h. refl) (λ h. p.set_written h _))

  Does-ensure_stateful_set : (o : StatefulSet) → Does Stage (ensure_stateful_set k o) (λ _. Stage)
  unfolding ensure_stateful_set stored
  Does-ensure_stateful_set o = Does-bind (Does-owned o.meta) (λ meta.
      Does-bind (Does-read _ _ (λ h. refl) (λ h. p.set h _))
        (Does-apply_stateful_set (record o { meta = meta })))

  provided :
      (cluster : ProxmoxCluster) (files : ConfigMap)
      → config_map cluster ≡ some files
      → Does Stage
          (with_context "headless service" (ensure_service k (headless_service cluster))
            >> (with_context "ui service" (ensure_service k (ui_service cluster))
                >> (ensure_built k (config_map cluster)
                    >> with_context "statefulset" (ensure_stateful_set k (stateful_set cluster)))))
          (λ _. Stage)
  provided cluster files e = Does-bind (Does-with_context _ (Does-ensure_service _)) (λ _.
      Does-bind (Does-with_context _ (Does-ensure_service _)) (λ _.
        Does-bind (rw (e) (Does-with_context "configmap" (Does-ensure_config_map files)))
          (λ _. Does-with_context _ (Does-ensure_stateful_set _))))

  config_map-built :
      (cluster : ProxmoxCluster) (n : ℕ)
      → cluster.spec.nodes ≡ pos n
      → (files : ConfigMap) × (config_map cluster ≡ some files)
  unfolding config_map render_corosync corosync_nodes
  config_map-built cluster n h = elim (Option-cases (config_map cluster)) [
    | inl e ↦ absurd (let built = rw (h) at e in cc)
    | inr found ↦ found
  ]

  pub Does-provision : (n : ℕ) → spec.nodes ≡ pos n → Does Stage (provision k) (λ _. Stage)
  unfolding provision
  Does-provision n h = Does-bind {K = λ c s. Stage s × (c ≡ s.cluster)} Does-the_cluster (λ cluster.
      record {
        run = λ s a.
            let same : cluster.spec ≡ spec = ap (λ d. d.spec) a.1 ∙ a.0.same_spec in
            let (files, e) = config_map-built cluster n (ap (λ sp. sp.nodes) same ∙ h) in
            (provided cluster files e).run s a.0;
      })

  -- the body of the retry around `addFinalizer`
  Does-write_added :
      (stores : Stores k before) (latest : ProxmoxCluster) (out : List String × Bool)
      → Does
          (λ s. Stage s × (latest ≡ stored before s.history))
          (write_added k latest out)
          (λ _. Stage)
  unfolding stored
  Does-write_added stores latest (fs, false) =
      Does-relax (λ s h. h.0) (λ a s h. h) (Does-pure {K = λ _. Stage} tt)
  Does-write_added stores latest (fs, true) =
      Does-bind
        (Does-request {K = λ _. Stage} _ _ (λ h. stores.written h _)
          (λ s a e h. record {
            same_spec = h.0.same_spec;
            is_initialized = h.0.is_initialized;
            is_joined = h.0.is_joined;
            stored_spec = ap (λ c. c.spec) h.1 ∙ h.0.stored_spec;
            alive = ap (λ c. c.meta.deletion_timestamp) h.1 ∙ h.0.alive;
          }))
        (λ o.
          Does-bind (Does-modify {K = Stage} _ (λ s h. At-same k before spec s _ refl refl refl h))
            (λ _. Does-modify _ (λ s h. At-same k before spec s _ refl refl refl h)))

  Does-write_finalizer :
      (stores : Stores k before) (key : Key) → Does Stage (write_finalizer k key) (λ _. Stage)
  unfolding write_finalizer fetch_cluster stored
  Does-write_finalizer stores key =
      Does-bind
        (Does-request {K = λ c s. Stage s × (c ≡ stored before s.history)} _ _
          (λ h. (stored before h, stores.fetched h key))
          (λ s a e h. (
            At-same k before spec s _ refl refl refl h,
            (let e' = stores.fetched s.history key in cc),
          )))
        (λ latest. Does-write_added stores latest _)

  pub Does-ensure_finalizer :
      (stores : Stores k before)
      → IsRetry k.retry_on_conflict
      → (fs : List String) → Does Stage (ensure_finalizer k fs) (λ _. Stage)
  unfolding add_finalizer
  Does-ensure_finalizer stores retry fs =
      Does-if (k.contains_finalizer fs finalizer_name) _ _ (λ _. Does-pure {K = λ _. Stage} tt)
        (λ _. Does-bind (Does-relax (λ s h. h) (λ c s h. h.0) Does-the_cluster) (λ cluster. record {
          run = λ s h.
              let f = write_finalizer k (key_of cluster.meta) in
              let (_, s', e, a) = (Does-write_finalizer stores (key_of cluster.meta)).run s h in
              (tt, s', retried k f s s' (k.retry_on_conflict f s) (retry f s) e, a);
        }))

-- ===== src/Controller/Status/Stable.antt =====
-- What the status helpers and `execScript` of proxmoxcluster_controller.go keep.
use multiprox.Prelude.{ℕ, String, Bool, true, false, List, [], ◌∷◌}
use multiprox.Prelude.Int.{ℤ}
use multiprox.Text.Strings.{◌+++◌}
use multiprox.Text.Decimal.{show_ℕ}
use multiprox.Api.Meta.{Time, Condition}
use multiprox.Api.Cluster.{Phase, ProxmoxClusterStatus, ProxmoxCluster}
use multiprox.Api.Pod.{Pod}
use multiprox.Errors.{Error, Result, ok, err, is_not_found}
use multiprox.Controller.Kube.{
  Key, key_of, Call, get_cluster, update_cluster, update_cluster_status, get_pod, exec, delete_node,
  Pass, Kube,
}
use multiprox.Controller.Pass.{pure, raise, the_cluster, modify, ◌>>=◌}
use multiprox.Controller.Pass.Keeps.{
  View, view, Assertion, Keeps, Stable, IsRetry, Keeps-relax, Keeps-pure, Keeps-raise,
  Stable-request, Stable-attempt, Keeps-if, Keeps-bind, Keeps-modify, Keeps-the_cluster,
  Stable-retry,
}
use multiprox.Controller.Status.{
  finalizer_name, set_finalizers, set_phase, fetch_cluster, write_status, update_status,
  write_finalizer, add_finalizer, remove_finalizer, write_added, write_removed, drop_finalizer,
  set_condition, new_condition, exec_script, is_running, run_in_pod,
}

-- A status computed where `J` holds, with this phase, may be written to any object.
abbrev pub MayWrite : (Call → Type 0) → Assertion → Phase → Type 0
MayWrite P J phase =
    (cluster latest : ProxmoxCluster)
    → J (view cluster)
    → P (update_cluster_status (record latest { status = (set_phase phase cluster).status }))

-- the scripts that may run in the cluster's pods
abbrev pub MayExec : (Call → Type 0) → String → Type 0
MayExec P script = (key : Key) → P (exec key ("bash" ∷ script ∷ []))

-- the calls that leave the cluster's status alone, run nothing in a pod and delete nothing
abbrev pub IsPlain : Call → Type 0
IsPlain (update_cluster_status _) = ⊥
IsPlain (exec _ _) = ⊥
IsPlain (delete_node _) = ⊥
IsPlain _ = Unit

module _ {P : Call → Type 0} {J : Assertion} where
  pub Stable-pure : {A : Type 0} (a : A) → Stable P J (pure a)
  Stable-pure a = Keeps-pure a

  pub Stable-raise : {A : Type 0} (e : Error) → Stable P J (raise {A = A} e)
  Stable-raise e = Keeps-raise e

  pub Stable-bind :
      {A B : Type 0} {m : Pass A} {f : A → Pass B}
      → Stable P J m
      → ((a : A) → Stable P J (f a))
      → Stable P J (m >>= f)
  Stable-bind t u = Keeps-bind t u

  pub Stable-the_cluster : Stable P J the_cluster
  Stable-the_cluster = Keeps-relax (λ v j. j) (λ c v j. j.0) (λ v j. j) Keeps-the_cluster

  pub Stable-modify :
      (f : ProxmoxCluster → ProxmoxCluster)
      → ((c : ProxmoxCluster) → J (view c) → J (view (f c)))
      → Stable P J (modify f)
  Stable-modify f g = Keeps-modify f g

module _ (k : Kube) (retry : IsRetry k.retry_on_conflict) {P : Call → Type 0} {J : Assertion}
    (reads : (key : Key) → P (get_cluster key)) where
  Stable-fetch : (key : Key) → Stable P J (fetch_cluster k key)
  unfolding fetch_cluster
  Stable-fetch key = Stable-request (get_cluster key) _ (reads key)

  Stable-write_status :
      (desired : ProxmoxClusterStatus) (key : Key)
      → ((latest : ProxmoxCluster) → P (update_cluster_status (record latest { status = desired })))
      → Stable P J (write_status k desired key)
  unfolding write_status
  Stable-write_status desired key w =
      Stable-bind (Stable-fetch key) (λ latest.
        Stable-bind (Stable-request _ _ (w latest)) (λ stored. Stable-modify _ (λ c j. j)))

  pub Stable-update_status :
      (phase : Phase) → MayWrite P J phase → Stable P J (update_status k phase)
  unfolding update_status write_status the_cluster modify ◌>>=◌
  Stable-update_status phase w = record {
    holds = λ s h j.
        (Stable-retry
            (Stable-write_status (set_phase phase s.cluster).status (key_of s.cluster.meta)
              (λ latest. w s.cluster latest j))
            k.retry_on_conflict retry).holds
          (record s { cluster = set_phase phase s.cluster }) h j;
  }

  Stable-write_added :
      (writes : (c : ProxmoxCluster) → P (update_cluster c))
      → (latest : ProxmoxCluster) (out : List String × Bool) → Stable P J (write_added k latest out)
  Stable-write_added writes latest (finalizers, false) = Stable-pure tt
  Stable-write_added writes latest (finalizers, true) =
      Stable-bind (Stable-request _ _ (writes _))
        (λ stored. Stable-bind (Stable-modify _ (λ c j. j)) (λ _. Stable-modify _ (λ c j. j)))

  pub Stable-add_finalizer :
      (writes : (c : ProxmoxCluster) → P (update_cluster c)) → Stable P J (add_finalizer k)
  unfolding add_finalizer write_finalizer
  Stable-add_finalizer writes = Stable-bind Stable-the_cluster (λ cluster.
      Stable-retry (Stable-bind (Stable-fetch _) (λ latest. Stable-write_added writes latest _))
        k.retry_on_conflict retry)

  Stable-write_removed :
      (latest : ProxmoxCluster) (out : List String × Bool)
      → P (update_cluster (set_finalizers out.0 latest))
      → Stable P J (write_removed k latest out)
  Stable-write_removed latest (finalizers, false) p = Stable-pure tt
  Stable-write_removed latest (finalizers, true) p =
      Stable-bind (Stable-request _ _ p) (λ _. Stable-pure tt)

  module _
      (writes : (latest : ProxmoxCluster)
        → P (
            update_cluster (
              set_finalizers
                (k.remove_finalizer latest.meta.finalizers finalizer_name).0
                latest))) where
    Stable-drop_finalizer : (found : Result ProxmoxCluster) → Stable P J (drop_finalizer k found)
    Stable-drop_finalizer (ok latest) = Stable-write_removed latest _ (writes latest)
    Stable-drop_finalizer (err e) =
        Keeps-if (is_not_found e) (λ _. Stable-pure tt) (λ _. Stable-raise e)

    pub Stable-remove_finalizer : Stable P J (remove_finalizer k)
    unfolding remove_finalizer
    Stable-remove_finalizer = Stable-bind Stable-the_cluster (λ cluster.
        Stable-retry (Stable-bind (Stable-attempt (Stable-fetch _)) Stable-drop_finalizer)
          k.retry_on_conflict retry)

-- what `setCondition` does to the conditions
abbrev pub with_conditions : View → List Condition → View
with_conditions v cs = record v { conditions = cs }

module _ (k : Kube) {P : Call → Type 0} where
  pub Keeps-set_condition :
      {J K L : Assertion} (type : String) (value : Bool) (true_reason false_reason message : String)
      → ((v : View) (now : Time) (generation : ℤ)
          → J v
          → K (
              with_conditions v (
                k.set_status_condition now v.conditions
                  (new_condition type value true_reason false_reason message generation))))
      → Keeps P J (set_condition k type value true_reason false_reason message) (λ _. K) L
  unfolding set_condition modify
  Keeps-set_condition type value true_reason false_reason message f = record {
    holds = λ s h j. (h, f (view s.cluster) (k.server.now s.history) s.cluster.meta.generation j);
  }

  pub Stable-exec_script :
      {J : Assertion} (ordinal : ℕ) (script : String)
      → ((key : Key) → P (get_pod key))
      → MayExec P script
      → Stable P J (exec_script k ordinal script)
  unfolding exec_script
  Stable-exec_script {J} ordinal script reads may = Stable-bind Stable-the_cluster (λ cluster.
      Stable-bind (Stable-attempt (Stable-request _ _ (reads _)))
        (ran cluster.meta.namespace (cluster.meta.name +++ "-" +++ show_ℕ ordinal)))
    where
      ran :
          (namespace pod : String) (found : Result Pod)
          → Stable P J (run_in_pod k namespace pod script found)
      ran namespace pod (err e) = Stable-pure _
      ran namespace pod (ok found) =
          Keeps-if (is_running found.phase) (λ _. Stable-request _ _ (may _)) (λ _. Stable-pure _)

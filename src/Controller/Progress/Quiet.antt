-- ===== src/Controller/Progress/Quiet.antt =====
-- `reconcileNodes` of proxmoxcluster_controller.go leaves the stored cluster as it is, whatever the
-- server answers.
use multiprox.Prelude.{◌≡◌, refl, ◌∙◌, ℕ, String, Bool, true, false, List, [], ◌∷◌, if◌then◌else◌}
use multiprox.Text.Strings.{◌+++◌}
use multiprox.Text.Decimal.{show_ℕ}
use multiprox.Api.Meta.{Time}
use multiprox.Api.Cluster.{ProxmoxCluster}
use multiprox.Api.Node.{ProxmoxNodeStatus, ProxmoxNode}
use multiprox.Api.Pod.{Pod}
use multiprox.Node.Inventory.{InventoryMap}
use multiprox.Errors.{Error, Result, ok, err, is_not_found}
use multiprox.Controller.Kube.{Call, History, Run, Pass, Kube}
use multiprox.Controller.Pass.{
  pure, raise, lift, attempt, with_context, request, current_time, the_cluster, continue, ◌>>=◌,
}
use multiprox.Controller.Status.{exec_script, run_in_pod, is_running}
use multiprox.Controller.Nodes.{
  is_desired, desired_names, put_node_status, create_with_status, labels_differ, patch_metadata,
  put_merged, apply_node, upsert_node, project_node, project_nodes, prune_nodes, reconcile_nodes,
}
use multiprox.Controller.Progress.Status.{stored}

module _ (before : ProxmoxCluster) where
  -- what is stored stays, whether the step ends with a result or an error
  pub record Quiet {A : Type 0} (m : Pass A) : Type 0 where
    pub kept : (s : Run) → stored before (m s).1.history ≡ stored before s.history

  module _ {A : Type 0} where
    Quiet-pure : (a : A) → Quiet (pure a)
    unfolding pure
    Quiet-pure a = record { kept = λ s. refl }

    Quiet-raise : (e : Error) → Quiet (raise {A = A} e)
    unfolding raise
    Quiet-raise e = record { kept = λ s. refl }

    Quiet-lift : (r : Result A) → Quiet (lift r)
    unfolding lift
    Quiet-lift r = record { kept = λ s. refl }

    Quiet-with_context : (context : String) {m : Pass A} → Quiet m → Quiet (with_context context m)
    unfolding with_context
    Quiet-with_context context q = record { kept = q.kept }

    -- a call that is no write of the cluster
    Quiet-request :
        (call : Call) (answer : History → Result A)
        → ((h : History) → stored before (call ∷ h) ≡ stored before h)
        → Quiet (request call answer)
    unfolding request
    Quiet-request call answer e = record { kept = λ s. e s.history }

    Quiet-if : (b : Bool) {m n : Pass A} → Quiet m → Quiet n → Quiet (if b then m else n)
    Quiet-if true q r = q
    Quiet-if false q r = r

  module _ {A : Type 0} where
    Quiet-attempt : {m : Pass A} → Quiet m → Quiet (attempt m)
    unfolding attempt
    Quiet-attempt q = record { kept = q.kept }

  module _ {A B : Type 0} where
    continued :
        (out : Result A × Run) (f : A → Pass B)
        → ((a : A) → Quiet (f a))
        → stored before (continue out.0 f out.1).1.history ≡ stored before out.1.history
    continued (ok a, s) f r = (r a).kept s
    continued (err e, s) f r = refl

    Quiet-bind : {m : Pass A} {f : A → Pass B} → Quiet m → ((a : A) → Quiet (f a)) → Quiet (m >>= f)
    unfolding ◌>>=◌
    Quiet-bind {m = m} {f} q r = record { kept = λ s. continued (m s) f r ∙ q.kept s }

  Quiet-the_cluster : Quiet the_cluster
  unfolding the_cluster
  Quiet-the_cluster = record { kept = λ s. refl }

  module _ (k : Kube) where
    Quiet-current_time : Quiet (current_time k)
    unfolding current_time
    Quiet-current_time = record { kept = λ s. refl }

    ran :
        (namespace pod script : String) (found : Result Pod)
        → Quiet (run_in_pod k namespace pod script found)
    unfolding stored
    ran namespace pod script (err e) = Quiet-pure _
    ran namespace pod script (ok found) =
        Quiet-if (is_running found.phase) (Quiet-request _ _ (λ h. refl)) (Quiet-pure _)

    Quiet-exec_script : (ordinal : ℕ) (script : String) → Quiet (exec_script k ordinal script)
    unfolding exec_script stored
    Quiet-exec_script ordinal script = Quiet-bind Quiet-the_cluster (λ cluster.
        Quiet-bind (Quiet-attempt (Quiet-request _ _ (λ h. refl)))
          (ran cluster.meta.namespace (cluster.meta.name +++ "-" +++ show_ℕ ordinal) script))

    Quiet-put_node_status : (node : ProxmoxNode) → Quiet (put_node_status k node)
    unfolding put_node_status stored
    Quiet-put_node_status node = Quiet-bind (Quiet-request _ _ (λ h. refl)) (λ _. Quiet-pure tt)

    Quiet-create_with_status : (node : ProxmoxNode) → Quiet (create_with_status k node)
    unfolding create_with_status stored
    Quiet-create_with_status node =
        Quiet-bind (Quiet-with_context "create" (Quiet-request _ _ (λ h. refl)))
          (λ _. Quiet-put_node_status _)

    Quiet-patch_metadata :
        (existing desired : ProxmoxNode) → Quiet (patch_metadata k existing desired)
    unfolding patch_metadata stored
    Quiet-patch_metadata existing desired =
        Quiet-if (labels_differ k existing desired)
          (Quiet-with_context "patch metadata" (Quiet-request _ _ (λ h. refl)))
          (Quiet-pure existing)

    Quiet-put_merged :
        (existing : ProxmoxNode) (out : ProxmoxNodeStatus × Bool)
        → Quiet (put_merged k existing out)
    Quiet-put_merged existing (merged, changed) =
        Quiet-if changed (Quiet-put_node_status _) (Quiet-pure tt)

    Quiet-apply_node :
        (desired : ProxmoxNode) (found : Result ProxmoxNode) → Quiet (apply_node k desired found)
    Quiet-apply_node desired (ok existing) =
        Quiet-bind (Quiet-patch_metadata existing desired) (λ patched. Quiet-put_merged patched _)
    Quiet-apply_node desired (err e) =
        Quiet-if (is_not_found e) (Quiet-create_with_status desired)
          (Quiet-with_context "get" (Quiet-raise e))

    Quiet-upsert_node : (desired : ProxmoxNode) → Quiet (upsert_node k desired)
    unfolding upsert_node stored
    Quiet-upsert_node desired =
        Quiet-bind (Quiet-attempt (Quiet-request _ _ (λ h. refl))) (Quiet-apply_node desired)

    module _ (cluster : ProxmoxCluster) (now : Time) (inventory : InventoryMap)
        (pods : List Pod) where
      Quiet-project_node : (ordinal : ℕ) → Quiet (project_node k cluster now inventory pods ordinal)
      unfolding project_node
      Quiet-project_node ordinal =
          Quiet-bind (Quiet-with_context _ (Quiet-lift _))
            (λ meta. Quiet-bind (Quiet-attempt (Quiet-upsert_node _)) (λ _. Quiet-pure tt))

      Quiet-project_nodes :
          (ordinals : List ℕ) → Quiet (project_nodes k cluster now inventory pods ordinals)
      unfolding project_nodes
      Quiet-project_nodes [] = Quiet-pure tt
      Quiet-project_nodes (i ∷ is) = Quiet-bind (Quiet-project_node i) (λ _. Quiet-project_nodes is)

    Quiet-prune_nodes :
        (desired : List String) (nodes : List ProxmoxNode) → Quiet (prune_nodes k desired nodes)
    unfolding prune_nodes stored
    Quiet-prune_nodes desired [] = Quiet-pure tt
    Quiet-prune_nodes desired (n ∷ ns) =
        Quiet-bind
          (Quiet-if (is_desired n.meta.name desired) (Quiet-pure _)
            (Quiet-attempt (Quiet-request _ _ (λ h. refl))))
          (λ _. Quiet-prune_nodes desired ns)

    pub Quiet-reconcile_nodes : Quiet (reconcile_nodes k)
    unfolding reconcile_nodes stored
    Quiet-reconcile_nodes = Quiet-bind Quiet-the_cluster (λ cluster.
        Quiet-bind Quiet-current_time (λ now. Quiet-bind (Quiet-exec_script 0 _) (λ reply.
          Quiet-bind (Quiet-with_context _ (Quiet-request _ _ (λ h. refl))) (λ pods.
            Quiet-bind (Quiet-project_nodes cluster now _ pods _) (λ _.
              Quiet-bind (Quiet-with_context _ (Quiet-request _ _ (λ h. refl)))
                (λ existing. Quiet-prune_nodes (desired_names cluster) existing))))))

-- ===== src/Controller/Ensure/Stable.antt =====
-- What the create-or-patch helpers of proxmoxcluster_controller.go keep.
use multiprox.Api.Meta.{ObjectMeta}
use multiprox.Workload.Objects.{Service, ConfigMap, StatefulSet}
use multiprox.Errors.{Result, ok, err, is_not_found}
use multiprox.Controller.Kube.{Call, Kube}
use multiprox.Controller.Pass.Keeps.{
  Assertion, Stable, Stable-request, Stable-attempt, Stable-lift, Keeps-if,
}
use multiprox.Controller.Status.Stable.{
  IsPlain, Stable-pure, Stable-raise, Stable-bind, Stable-the_cluster,
}
use multiprox.Controller.Ensure.{
  owned, apply_service, ensure_service, apply_config_map, ensure_config_map, apply_stateful_set,
  ensure_stateful_set, write_service, write_config_map, write_stateful_set,
}

module _ (k : Kube) {P : Call → Type 0} {J : Assertion} (plain : (c : Call) → IsPlain c → P c) where
  Stable-owned : (meta : ObjectMeta) → Stable P J (owned k meta)
  Stable-owned meta = Stable-bind Stable-the_cluster (λ c. Stable-lift _)

  Stable-write_service :
      (call : Call) (svc : Service) → IsPlain call → Stable P J (write_service k call svc)
  Stable-write_service call svc p =
      Stable-bind (Stable-request _ _ (plain call p)) (λ _. Stable-pure tt)

  Stable-apply_service :
      (desired : Service) (found : Result Service) → Stable P J (apply_service k desired found)
  Stable-apply_service desired (ok existing) = Stable-write_service _ _ tt
  Stable-apply_service desired (err e) =
      Keeps-if (is_not_found e) (λ _. Stable-write_service _ _ tt) (λ _. Stable-raise e)

  pub Stable-ensure_service : (svc : Service) → Stable P J (ensure_service k svc)
  unfolding ensure_service
  Stable-ensure_service svc = Stable-bind (Stable-owned svc.meta) (λ meta.
      Stable-bind (Stable-attempt (Stable-request _ _ (plain _ tt)))
        (λ found. Stable-apply_service (record svc { meta = meta }) found))

  Stable-write_config_map :
      (call : Call) (cm : ConfigMap) → IsPlain call → Stable P J (write_config_map k call cm)
  Stable-write_config_map call cm p =
      Stable-bind (Stable-request _ _ (plain call p)) (λ _. Stable-pure tt)

  Stable-apply_config_map :
      (desired : ConfigMap) (found : Result ConfigMap)
      → Stable P J (apply_config_map k desired found)
  Stable-apply_config_map desired (ok existing) =
      Keeps-if (k.deep_equal_map existing.data_of desired.data_of) (λ _. Stable-pure tt)
        (λ _. Stable-write_config_map _ _ tt)
  Stable-apply_config_map desired (err e) =
      Keeps-if (is_not_found e) (λ _. Stable-write_config_map _ _ tt) (λ _. Stable-raise e)

  pub Stable-ensure_config_map : (cm : ConfigMap) → Stable P J (ensure_config_map k cm)
  unfolding ensure_config_map
  Stable-ensure_config_map cm = Stable-bind (Stable-owned cm.meta) (λ meta.
      Stable-bind (Stable-attempt (Stable-request _ _ (plain _ tt)))
        (λ found. Stable-apply_config_map (record cm { meta = meta }) found))

  Stable-write_stateful_set :
      (call : Call) (sts : StatefulSet) → IsPlain call → Stable P J (write_stateful_set k call sts)
  Stable-write_stateful_set call sts p =
      Stable-bind (Stable-request _ _ (plain call p)) (λ _. Stable-pure tt)

  Stable-apply_stateful_set :
      (desired : StatefulSet) (found : Result StatefulSet)
      → Stable P J (apply_stateful_set k desired found)
  Stable-apply_stateful_set desired (ok existing) = Stable-write_stateful_set _ _ tt
  Stable-apply_stateful_set desired (err e) =
      Keeps-if (is_not_found e) (λ _. Stable-write_stateful_set _ _ tt) (λ _. Stable-raise e)

  pub Stable-ensure_stateful_set : (sts : StatefulSet) → Stable P J (ensure_stateful_set k sts)
  unfolding ensure_stateful_set
  Stable-ensure_stateful_set sts = Stable-bind (Stable-owned sts.meta) (λ meta.
      Stable-bind (Stable-attempt (Stable-request _ _ (plain _ tt)))
        (λ found. Stable-apply_stateful_set (record sts { meta = meta }) found))

-- ===== src/Controller/Ensure.antt =====
-- `ensureService`, `ensureConfigMap` and `ensureStatefulSet` of proxmoxcluster_controller.go: create
-- the object, or patch the fields that the operator owns.
pub mod Stable
use multiprox.Prelude.{List, ◌∷◌, if◌then◌else◌}
use multiprox.Api.Meta.{ObjectMeta}
use multiprox.Workload.Objects.{Service, ConfigMap, StatefulSet}
use multiprox.Errors.{Error, Result, ok, err, is_not_found}
use multiprox.Controller.Kube.{
  Key, key_of, Call, get_service, create_service, patch_service, get_config_map, create_config_map,
  patch_config_map, get_stateful_set, create_stateful_set, patch_stateful_set, Pass, Kube,
}
use multiprox.Controller.Pass.{pure, raise, lift, attempt, request, the_cluster, ◌>>=◌, ◌>>◌}

-- the fields of the stored object that the operator owns, from the object it wants
abbrev pub patched_service : Service → Service → Service
patched_service existing desired = record existing {
  spec = record existing.spec { ports = desired.spec.ports; selector = desired.spec.selector };
}

abbrev pub patched_config_map : ConfigMap → ConfigMap → ConfigMap
patched_config_map existing desired = record existing { data_of = desired.data_of }

-- the claim templates stay as they are: they are immutable
abbrev pub patched_stateful_set : StatefulSet → StatefulSet → StatefulSet
patched_stateful_set existing desired = record existing {
  spec = record existing.spec {
    replicas = desired.spec.replicas;
    template = desired.spec.template;
  };
}

module _ (k : Kube) where
  -- `controllerutil.SetControllerReference`
  abbrev pub owned : ObjectMeta → Pass ObjectMeta
  owned meta = do cluster ← the_cluster; lift (k.set_controller_reference cluster meta)

  abbrev pub write_service : Call → Service → Pass (Unit {0})
  write_service call svc = do _ ← request call (λ h. k.server.on_write_service h svc); pure tt

  abbrev pub apply_service : Service → Result Service → Pass (Unit {0})
  apply_service desired (err e) =
      if is_not_found e then write_service (create_service desired) desired else raise e
  apply_service desired (ok existing) =
      write_service (patch_service (patched_service existing desired))
        (patched_service existing desired)

  unfoldable pub ensure_service : Service → Pass (Unit {0})
  ensure_service svc = do
    meta ← owned svc.meta
    let desired = record svc { meta = meta }
    let key = key_of meta
    found ← attempt (request (get_service key) (λ h. k.server.on_get_service h key))
    apply_service desired found

  abbrev pub write_config_map : Call → ConfigMap → Pass (Unit {0})
  write_config_map call cm = do _ ← request call (λ h. k.server.on_write_config_map h cm); pure tt

  abbrev pub apply_config_map : ConfigMap → Result ConfigMap → Pass (Unit {0})
  apply_config_map desired (err e) =
      if is_not_found e then write_config_map (create_config_map desired) desired else raise e
  apply_config_map desired (ok existing) =
      if k.deep_equal_map existing.data_of desired.data_of
      then pure tt
      else write_config_map (patch_config_map (patched_config_map existing desired))
          (patched_config_map existing desired)

  unfoldable pub ensure_config_map : ConfigMap → Pass (Unit {0})
  ensure_config_map cm = do
    meta ← owned cm.meta
    let desired = record cm { meta = meta }
    let key = key_of meta
    found ← attempt (request (get_config_map key) (λ h. k.server.on_get_config_map h key))
    apply_config_map desired found

  abbrev pub write_stateful_set : Call → StatefulSet → Pass (Unit {0})
  write_stateful_set call sts = do
    _ ← request call (λ h. k.server.on_write_stateful_set h sts)
    pure tt

  abbrev pub apply_stateful_set : StatefulSet → Result StatefulSet → Pass (Unit {0})
  apply_stateful_set desired (err e) =
      if is_not_found e then write_stateful_set (create_stateful_set desired) desired else raise e
  apply_stateful_set desired (ok existing) =
      write_stateful_set (patch_stateful_set (patched_stateful_set existing desired))
        (patched_stateful_set existing desired)

  unfoldable pub ensure_stateful_set : StatefulSet → Pass (Unit {0})
  ensure_stateful_set sts = do
    meta ← owned sts.meta
    let desired = record sts { meta = meta }
    let key = key_of meta
    found ← attempt (request (get_stateful_set key) (λ h. k.server.on_get_stateful_set h key))
    apply_stateful_set desired found

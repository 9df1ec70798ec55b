-- ===== src/Operator.antt =====
-- main.go of kubernetes/operator, and SetupWithManager of proxmoxcluster_controller.go: the start of
-- the operator's process. controller-runtime, client-go and the environment are a parameter.
pub mod Starts
pub mod Examples
use multiprox.Prelude.{
  String, Bool, true, false, Option, none, some, List, [], ◌∷◌, ◌==◌, ℕ, if◌then◌else◌,
}
use multiprox.Errors.{Error}

-- the flags once they are parsed
pub record Flags : Type 0 where
  pub metrics_addr : String
  pub probe_addr : String
  pub leader_election : Bool
  pub leader_election_id : String
  pub max_concurrent_reconciles : ℕ

abbrev pub default_flags : Flags
default_flags = record {
  metrics_addr = ":8080";
  probe_addr = ":8081";
  leader_election = true;
  leader_election_id = "multiprox-operator.proxmox.multiprox.io";
  max_concurrent_reconciles = 5;
}

pub data ApiGroup : Type 0 where
  client_go apps_v1 core_v1 proxmox_v1alpha1 : ApiGroup

pub data Watched : Type 0 where
  proxmox_cluster stateful_set service config_map : Watched

pub record ManagerOptions : Type 0 where
  pub scheme : List ApiGroup
  pub metrics_bind_address : String
  pub health_probe_bind_address : String
  pub leader_election : Bool
  pub leader_election_id : String

-- what the controller reconciles, the objects whose owner it also reconciles, and whether the
-- reconciler holds what it needs to run commands in pods
pub record ControllerOptions : Type 0 where
  pub reconciles : Watched
  pub owns : List Watched
  pub has_rest_config : Bool
  pub has_kube_client : Bool

-- the calls that may fail, and the line that is logged before the manager starts
pub data Call : Type 0 where
  add_to_scheme : ApiGroup → Call
  get_config : Call
  new_manager : ManagerOptions → Call
  new_clientset : Call
  complete_controller : ControllerOptions → Call
  add_healthz_check : String → Call
  add_readyz_check : String → Call
  log_starting : (version : String) (leader_election : Bool) → Call
  start_manager : Call

-- How the process ends: `main` returns, `utilruntime.Must` panics, `GetConfigOrDie` exits, or `main`
-- logs an error and exits with status 1.
pub data Exit : Type 0 where
  returned : Exit
  panicked died : Error → Exit
  exited : String → Error → Exit

-- the last call first
pub record Outcome : Type 0 where
  pub calls : List Call
  pub exit : Exit

-- what a call ends with, after these calls, where `none` is success
abbrev pub Runtime : Type 0
Runtime = List Call → Call → Option Error

-- `getVersion`, of the variable OPERATOR_VERSION, empty when unset
abbrev pub get_version : String → String
get_version v = if v == "" then "dev" else v

abbrev pub manager_options : List ApiGroup → Flags → ManagerOptions
manager_options scheme flags = record {
  scheme = scheme;
  metrics_bind_address = flags.metrics_addr;
  health_probe_bind_address = flags.probe_addr;
  leader_election = flags.leader_election;
  leader_election_id = flags.leader_election_id;
}

-- `SetupWithManager` of the reconciler that `main` builds
abbrev pub setup_with_manager : ControllerOptions
setup_with_manager = record {
  reconciles = Watched.proxmox_cluster;
  owns = Watched.stateful_set ∷ Watched.service ∷ Watched.config_map ∷ [];
  has_rest_config = true;
  has_kube_client = true;
}

-- the groups that `init` adds to the scheme
abbrev pub scheme : List ApiGroup
scheme = ApiGroup.client_go ∷ ApiGroup.apps_v1 ∷ ApiGroup.core_v1 ∷ ApiGroup.proxmox_v1alpha1 ∷ []

module _ (rt : Runtime) where
  abbrev pub answered : List Call → (Error → Exit) → (List Call → Outcome) → Option Error → Outcome
  answered calls failed rest none = rest calls
  answered calls failed rest (some e) = record { calls = calls; exit = failed e }

  -- a call, what becomes of its error, and what follows without one
  unfoldable pub checked : Call → (Error → Exit) → (List Call → Outcome) → List Call → Outcome
  checked call failed rest calls = answered (call ∷ calls) failed rest (rt calls call)

  -- `init`
  unfoldable pub init : (List Call → Outcome) → List Call → Outcome
  init rest = checked (Call.add_to_scheme ApiGroup.client_go) Exit.panicked (
      checked (Call.add_to_scheme ApiGroup.apps_v1) Exit.panicked (
        checked (Call.add_to_scheme ApiGroup.core_v1) Exit.panicked
          (checked (Call.add_to_scheme ApiGroup.proxmox_v1alpha1) Exit.panicked rest)))

  -- the end of `main`, from the log line on
  unfoldable pub serve : (version : String) → Flags → List Call → Outcome
  serve version flags calls =
      checked Call.start_manager (Exit.exited "problem running manager")
        (λ done. record { calls = done; exit = Exit.returned })
        (Call.log_starting (get_version version) flags.leader_election ∷ calls)

  -- `main` with the parsed flags
  unfoldable pub main : (version : String) → Flags → List Call → Outcome
  main version flags = checked Call.get_config Exit.died (
      checked (Call.new_manager (manager_options scheme flags))
        (Exit.exited "unable to start manager")
        (checked Call.new_clientset (Exit.exited "unable to build kubernetes clientset") (
          checked (Call.complete_controller setup_with_manager)
            (Exit.exited "unable to create controller")
            (checked (Call.add_healthz_check "healthz")
              (Exit.exited "unable to set up health check")
              (checked (Call.add_readyz_check "readyz") (Exit.exited "unable to set up ready check")
                (serve version flags))))))

  -- the process: `init` of the package, then `main`
  unfoldable pub process : (version : String) → Flags → Outcome
  process version flags = init (main version flags) []

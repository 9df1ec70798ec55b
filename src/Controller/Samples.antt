-- ===== src/Controller/Samples.antt =====
-- A concrete API server and concrete libraries for the tests of the reconciler.
use multiprox.Prelude.{
  sym, ◌||◌, ◌++◌, ap, ◌∙◌, ◌≡◌, refl, ℕ, zero, suc, String, Bool, true, false, none, List, [], ◌∷◌,
  ◌==◌, if◌then◌else◌, arith, eq_iff,
}
use multiprox.Prelude.Int.{ℤ, pos, eqb_ℤ}
use multiprox.Api.Meta.{Time, Condition, true_status}
use multiprox.Api.Cluster.{
  ProxmoxCluster, condition_cluster_initialized, condition_all_nodes_joined,
}
use multiprox.Api.Samples.{cluster_of, sample_pod}
use multiprox.Workload.StatefulSet.{stateful_set}
use multiprox.Node.Projection.{is_true}
use multiprox.Errors.{Error, Reason, Result, ok, err, is_conflict}
use multiprox.Controller.Kube.{History, Key, Server, Run, Pass, Kube}
use multiprox.Controller.Pass.Keeps.{Retries, IsRetry, last, again}
use multiprox.Workload.Objects.{StatefulSet}
use multiprox.Controller.Reconcile.Releases.{IsRemoval}
use multiprox.Controller.Reconcile.Conditions.{Laws}

-- as many attempts as steps, and one more
abbrev retry_after : Bool → Pass (Unit {0}) → Result (Unit {0}) × Run → Result (Unit {0}) × Run
retry_after true rest (out, s) = rest s
retry_after false rest out = out

abbrev failed_by_conflict : Result (Unit {0}) → Bool
failed_by_conflict (ok _) = false
failed_by_conflict (err e) = is_conflict e

unfoldable pub retry_steps : ℕ → Pass (Unit {0}) → Pass (Unit {0})
retry_steps zero f s = f s
retry_steps (suc steps) f s =
    let rest = retry_steps steps f in retry_after (failed_by_conflict (f s).0) rest (f s)

next_attempt :
    (f rest : Pass (Unit {0}))
    → ((s : Run) → Retries f s (rest s))
    → (s : Run) → (out : Result (Unit {0}) × Run) → f s ≡ out
    → Retries f s (retry_after (failed_by_conflict out.0) rest out)
next_attempt f rest r s (ok a, s') p = last p
next_attempt f rest r s (err e, s') p = go (is_conflict e) refl
  where
    go : (b : Bool) → is_conflict e ≡ b → Retries f s (retry_after b rest (err e, s'))
    go true q = again p q (r s')
    go false q = last p

retry_steps-IsRetry : (steps : ℕ) → IsRetry (retry_steps steps)
unfolding retry_steps
retry_steps-IsRetry zero f s = last refl
retry_steps-IsRetry (suc steps) f s =
    next_attempt f (retry_steps steps f) (retry_steps-IsRetry steps f) s (f s) refl

-- the condition replaces the first one of its type, or stands at the end
unfoldable pub set_condition_in : Time → List Condition → Condition → List Condition
set_condition_in now [] c = c ∷ []
set_condition_in now (d ∷ ds) c = if d.type == c.type then c ∷ ds else d ∷ set_condition_in now ds c

unfoldable pub is_true_in : List Condition → String → Bool
is_true_in [] type = false
is_true_in (c ∷ cs) type = if c.type == type then is_true c.status else is_true_in cs type

is_true_in-set_condition_in :
    (now : Time) (cs : List Condition) (c : Condition) (type : String)
    → is_true_in (set_condition_in now cs c) type
      ≡ (if c.type == type then is_true c.status else is_true_in cs type)
unfolding set_condition_in is_true_in
is_true_in-set_condition_in now [] c type = refl
is_true_in-set_condition_in now (d ∷ ds) c type = grind (
  arith,
  is_true_in-set_condition_in now ds c type,
  eq_iff d.type c.type,
  eq_iff d.type type,
  eq_iff c.type type,
)

unfoldable pub contains_in : List String → String → Bool
contains_in [] f = false
contains_in (g ∷ gs) f = g == f || contains_in gs f

unfoldable pub remove_in : List String → String → List String
remove_in [] f = []
remove_in (g ∷ gs) f = let rest = remove_in gs f in if g == f then rest else g ∷ rest

contains_in-remove_in : (gs : List String) (f : String) → contains_in (remove_in gs f) f ≡ false
unfolding contains_in remove_in
contains_in-remove_in [] f = refl
contains_in-remove_in (g ∷ gs) f = grind (arith, contains_in-remove_in gs f)

abbrev lost : Error
lost = record { reason = Reason.not_found; text = "not found" }

-- A server that holds one cluster, a StatefulSet with this many ready pods, and one running pod where
-- every command prints a healthy status; it stores what is written.
abbrev sample_server : ProxmoxCluster → ℤ → Server
sample_server cluster ready = record {
  on_get_cluster = λ h key. ok cluster;
  on_update_cluster = λ h c. ok c;
  on_update_cluster_status = λ h c. ok c;
  on_get_service = λ h key. err lost;
  on_write_service = λ h svc. ok svc;
  on_get_config_map = λ h key. err lost;
  on_write_config_map = λ h cm. ok cm;
  on_get_stateful_set = λ h key. ok (record (stateful_set cluster) { ready_replicas = ready });
  on_write_stateful_set = λ h sts. ok sts;
  on_get_pod = λ h key. ok sample_pod;
  on_list_pods = λ h namespace labels. ok (sample_pod ∷ []);
  on_get_node = λ h key. err lost;
  on_write_node = λ h node. ok node;
  on_list_nodes = λ h namespace labels. ok [];
  on_delete_node = λ h key. ok tt;
  executor = λ h. record {
    create = λ namespace pod options. none;
    stream = λ namespace pod options stdin. ("health=HEALTH_OK osds_up=6 mons=lab-0\n", none);
  };
  now = λ h. 7;
}

-- `retry.DefaultRetry` makes five attempts
unfoldable pub sample_kube : ProxmoxCluster → ℤ → Kube
sample_kube cluster ready = record {
  server = sample_server cluster ready;
  has_rest_config = true;
  has_kube_client = true;
  retry_on_conflict = retry_steps 4;
  set_status_condition = set_condition_in;
  is_status_condition_true = is_true_in;
  set_controller_reference = λ owner meta. ok meta;
  contains_finalizer = contains_in;
  add_finalizer = λ fs f. if contains_in fs f then (fs, false) else (fs ++ f ∷ [], true);
  remove_finalizer = λ fs f. (remove_in fs f, contains_in fs f);
  deep_equal_map = λ a b. true;
  deep_equal_status = λ a b. true;
}

pub sample-Laws : (cluster : ProxmoxCluster) (ready : ℤ) → Laws (sample_kube cluster ready)
unfolding sample_kube
sample-Laws cluster ready = record {
  retry = retry_steps-IsRetry 4;
  condition = is_true_in-set_condition_in;
}

abbrev true_condition : String → Condition
true_condition type = record {
  type = type;
  status = true_status;
  observed_generation = pos 0;
  last_transition_time = 0;
  reason = "";
  message = "";
}

-- a cluster of so many nodes that was built before
abbrev pub built_cluster : ℤ → ProxmoxCluster
built_cluster nodes =
    let c = cluster_of nodes in
    record c {
      status = record c.status {
        conditions =
            true_condition condition_cluster_initialized
            ∷ true_condition condition_all_nodes_joined
            ∷ [];
      };
    }

pub sample-IsRemoval :
    (cluster : ProxmoxCluster) (ready : ℤ) → IsRemoval (sample_kube cluster ready)
unfolding sample_kube
sample-IsRemoval cluster ready = contains_in-remove_in

-- the StatefulSet of the sample server has so many ready pods
pub sample-ready :
    (cluster : ProxmoxCluster) (ready : ℤ) (b : Bool) (h : History) (at : Key) (sts : StatefulSet)
    → eqb_ℤ ready cluster.spec.nodes ≡ b
    → (sample_kube cluster ready).server.on_get_stateful_set h at ≡ ok sts
    → eqb_ℤ sts.ready_replicas cluster.spec.nodes ≡ b
unfolding sample_kube
sample-ready cluster ready b h at sts p e =
    let same : record (stateful_set cluster) { ready_replicas = ready } ≡ sts = cc in
    ap (λ x. eqb_ℤ x.ready_replicas cluster.spec.nodes) (sym same) ∙ p

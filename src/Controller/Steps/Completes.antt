-- ===== src/Controller/Steps/Completes.antt =====
-- The loop over the Ceph plan of proxmoxcluster_controller.go where every pod runs and every script
-- succeeds.
use multiprox.Prelude.{◌≡◌, refl, ap, ℕ, String, true, none, List, [], ◌∷◌}
use multiprox.Text.Strings.{◌+++◌}
use multiprox.Text.Decimal.{show_ℕ}
use multiprox.Api.Cluster.{ProxmoxCluster}
use multiprox.Api.Pod.{Pod}
use multiprox.Ceph.Plan.{CephTask}
use multiprox.Errors.{ok}
use multiprox.Exec.{PodExecOptions}
use multiprox.Exec.Outcome.{Succeeds, streamed_reply, run-Succeeds}
use multiprox.Controller.Kube.{Key, get_pod, exec, History, Run, Kube}
use multiprox.Controller.Pass.{◌>>=◌, pure, request, attempt, the_cluster}
use multiprox.Controller.Status.{exec_script, script_request, is_running}
use multiprox.Controller.Steps.{walk_plan}
use multiprox.Controller.Steps.Ran.{pod_key}

-- the operator is wired, each pod that is asked for runs, and each command in a pod succeeds
pub record Responds (k : Kube) : Type 0 where
  pub configured : k.has_rest_config ≡ true
  pub connected : k.has_kube_client ≡ true
  pub pod :
      (h : History) (key : Key)
      → (p : Pod) × (k.server.on_get_pod h key ≡ ok p) × (is_running p.phase ≡ true)
  pub created :
      (h : History) (namespace pod : String) (options : PodExecOptions)
      → (k.server.executor h).create namespace pod options ≡ none
  pub streamed :
      (h : History) (namespace pod : String) (options : PodExecOptions) (stdin : String)
      → ((k.server.executor h).stream namespace pod options stdin).1 ≡ none

-- the calls of a run of a script, and of all tasks of a plan in their order, behind earlier calls
abbrev pub script_calls : ProxmoxCluster → ℕ → String → History → History
script_calls c i script h = exec (pod_key c i) ("bash" ∷ script ∷ []) ∷ get_pod (pod_key c i) ∷ h

abbrev pub plan_calls : ProxmoxCluster → List CephTask → History → History
plan_calls c [] h = h
plan_calls c (t ∷ ts) h = plan_calls c ts (script_calls c t.ordinal t.script h)

module _ (k : Kube) where
  -- what a script prints that is run behind these calls
  abbrev pub script_output : ProxmoxCluster → ℕ → String → History → String
  script_output c i script h =
      (streamed_reply (k.server.executor (get_pod (pod_key c i) ∷ h))
        (script_request k c.meta.namespace (c.meta.name +++ "-" +++ show_ℕ i) script)).0

module _ (k : Kube) (r : Responds k) where
  pub exec_script-success :
      (i : ℕ) (script : String) (s : Run)
      → exec_script k i script s ≡ (
        ok (script_output k s.cluster i script s.history, none),
        record s { history = script_calls s.cluster i script s.history },
      )
  unfolding exec_script ◌>>=◌ pure request attempt the_cluster
  exec_script-success i script s =
      let (p, found, running) = r.pod s.history (pod_key s.cluster i) in
      let h = get_pod (pod_key s.cluster i) ∷ s.history in
      let x = k.server.executor h in
      let req =
        script_request k s.cluster.meta.namespace (s.cluster.meta.name +++ "-" +++ show_ℕ i)
          script in
      let runs : Succeeds x req = record {
        configured = r.configured;
        connected = r.connected;
        asked = refl;
        created = r.created h _ _ _;
        streamed = r.streamed h _ _ _ _;
      } in
      rw (found, running)
        (ap (λ reply. (ok reply, record s { history = script_calls s.cluster i script s.history }))
          (run-Succeeds x req runs))

  -- Where the operator is wired and no run of a script has an error, the loop over any plan ends with
  -- no failed task, and leaves the cluster in memory as it is, and its calls are those of each task
  -- of the plan in order.
  pub walk_plan-completes :
      (plan : List CephTask) (s : Run)
      → walk_plan k plan s ≡ (ok none, record s { history = plan_calls s.cluster plan s.history })
  unfolding walk_plan ◌>>=◌ pure
  walk_plan-completes [] s = refl
  walk_plan-completes (t ∷ ts) s =
      let e = exec_script-success t.ordinal t.script s in
      rw (e) (
        walk_plan-completes ts
          (record s { history = script_calls s.cluster t.ordinal t.script s.history }))

-- ===== src/Controller/Steps/Ran.antt =====
-- `execScript` of proxmoxcluster_controller.go: one run of a script, by the answers of the server and
-- the executor.
use multiprox.Prelude.{
  ◌≡◌, ◌≢◌, ◌↔◌, refl, ap, ◌∙◌, ℕ, String, Bool, true, false, Option, none, some, [], ◌∷◌,
  if◌then◌else◌, arith,
}
use multiprox.Text.Strings.{◌+++◌}
use multiprox.Text.Decimal.{show_ℕ}
use multiprox.Api.Cluster.{ProxmoxCluster}
use multiprox.Api.Pod.{Pod, PodPhase, running}
use multiprox.Errors.{Error, Result, ok, err}
use multiprox.Exec.Outcome.{Succeeds, run-Succeeds, run-Succeeds_iff}
use multiprox.Controller.Kube.{Key, get_pod, exec, History, Run, Pass, Kube}
use multiprox.Controller.Pass.{◌>>=◌, continue, pure, request, attempt, the_cluster}
use multiprox.Controller.Status.{exec_script, run_in_pod, is_running, script_request}

-- the pod of an ordinal
abbrev pub pod_key : ProxmoxCluster → ℕ → Key
pod_key c i = record { namespace = c.meta.namespace; name = c.meta.name +++ "-" +++ show_ℕ i }

-- One run of a script, from the calls made before it to those made after it. A pod that cannot be
-- read or is not running is an error before the command; else the command runs in the pod, and there
-- is no error exactly where it succeeds.
pub data Ran (k : Kube) (c : ProxmoxCluster) (i : ℕ) (script : String) (h : History)
    : Option Error → History → Type 0 where
  unread :
      {e : Error} (cause : Error)
      → k.server.on_get_pod h (pod_key c i) ≡ err cause
      → Ran k c i script h (some e) (get_pod (pod_key c i) ∷ h)
  not_running :
      {e : Error} (pod : Pod)
      → k.server.on_get_pod h (pod_key c i) ≡ ok pod
      → pod.phase ≢ running
      → Ran k c i script h (some e) (get_pod (pod_key c i) ∷ h)
  executed :
      {error : Option Error} (pod : Pod)
      → k.server.on_get_pod h (pod_key c i) ≡ ok pod
      → pod.phase ≡ running
      → (error ≡ none)
        ↔ Succeeds
            (k.server.executor (get_pod (pod_key c i) ∷ h))
            (script_request k c.meta.namespace (c.meta.name +++ "-" +++ show_ℕ i) script)
      → Ran k c i script h error
          (exec (pod_key c i) ("bash" ∷ script ∷ []) ∷ get_pod (pod_key c i) ∷ h)

module _ {A : Type 0} where
  -- the step ends with a result, and leaves the cluster in memory as it is
  abbrev pub Ends : Pass A → Run → (A → History → Type 0) → Type 0
  Ends m s R = (a : A) × (h : History) × (m s ≡ (ok a, record s { history = h })) × R a h

module _ {A B : Type 0} where
  pub Ends-bind :
      (m : Pass A) (f : A → Pass B) (s : Run) {R : A → History → Type 0} {Q : B → History → Type 0}
      → Ends m s R
      → ((a : A) (h : History) → R a h → Ends (f a) (record s { history = h }) Q)
      → Ends (m >>= f) s Q
  unfolding ◌>>=◌
  Ends-bind m f s (a, h, e, r) g =
      let (b, h', e', q) = g a h r in (b, h', ap (λ out. continue out.0 f out.1) e ∙ e', q)

module _ {A : Type 0} where
  Ends-if :
      (b : Bool) (m n : Pass A) (s : Run) {R : A → History → Type 0}
      → (b ≡ true → Ends m s R)
      → (b ≡ false → Ends n s R)
      → Ends (if b then m else n) s R
  Ends-if true m n s p q = p refl
  Ends-if false m n s p q = q refl

is_running-running : (p : PodPhase) → is_running p ≡ true → p ≡ running
is_running-running p h = ground arith

is_running-false : (p : PodPhase) → is_running p ≡ false → p ≢ running
is_running-false p h = ground arith

module _ (k : Kube) where
  pub exec_script-Ran :
      (i : ℕ) (script : String) (s : Run)
      → Ends (exec_script k i script) s (λ reply h. Ran k s.cluster i script s.history reply.1 h)
  unfolding exec_script ◌>>=◌ pure request attempt the_cluster
  exec_script-Ran i script s = go (k.server.on_get_pod s.history (pod_key s.cluster i)) refl
    where
      go :
          (found : Result Pod)
          → k.server.on_get_pod s.history (pod_key s.cluster i) ≡ found
          → Ends
              (run_in_pod k s.cluster.meta.namespace
                (s.cluster.meta.name +++ "-" +++ show_ℕ i)
                script
                found)
              (record s { history = get_pod (pod_key s.cluster i) ∷ s.history })
              (λ reply h. Ran k s.cluster i script s.history reply.1 h)
      go (err e) found = (_, _, refl, Ran.unread e found)
      go (ok pod) found =
          Ends-if (is_running pod.phase) _ _ _
            (λ p.
              let iff =
                run-Succeeds_iff (k.server.executor (get_pod (pod_key s.cluster i) ∷ s.history)) (
                  script_request k s.cluster.meta.namespace
                    (s.cluster.meta.name +++ "-" +++ show_ℕ i) script) in
              (
                _,
                _,
                refl,
                Ran.executed pod found (is_running-running pod.phase p)
                    (λ e. (iff.0 e).0, λ q. ap (λ r. r.1) (run-Succeeds _ _ q)),
              ))
            (λ p. (_, _, refl, Ran.not_running pod found (is_running-false pod.phase p)))

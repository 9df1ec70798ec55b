-- ===== src/Controller/Steps/Walks.antt =====
-- The loop over the Ceph plan in `reconcileCeph` of proxmoxcluster_controller.go, against a
-- description of its runs as steps.
use multiprox.Prelude.{Option, none, some, List, [], ◌∷◌, refl}
use multiprox.Api.Cluster.{ProxmoxCluster}
use multiprox.Ceph.Plan.{CephTask}
use multiprox.Errors.{Error}
use multiprox.Controller.Kube.{History, Run, Pass, Kube}
use multiprox.Controller.Pass.{pure}
use multiprox.Controller.Status.{exec_script}
use multiprox.Controller.Steps.{next_task, walk_plan}
use multiprox.Controller.Steps.Ran.{Ran, Ends, Ends-bind, exec_script-Ran}

-- A walk over the tasks in their order, which ends behind the last one or at the first that fails,
-- and names that one.
pub data Walks (k : Kube) (c : ProxmoxCluster)
    : List CephTask → Option (CephTask × Error) → History → History → Type 0 where
  finished : {h : History} → Walks k c [] none h h
  next :
      {t : CephTask} {ts : List CephTask} {out : Option (CephTask × Error)} {h h' h'' : History}
      → Ran k c t.ordinal t.script h none h'
      → Walks k c ts out h' h''
      → Walks k c (t ∷ ts) out h h''
  stopped :
      {t : CephTask} {ts : List CephTask} {e : Error} {h h' : History}
      → Ran k c t.ordinal t.script h (some e) h'
      → Walks k c (t ∷ ts) (some (t, e)) h h'

module _ (k : Kube) where
  Walks-next_task :
      (c : ProxmoxCluster) (t : CephTask) (ts : List CephTask) (before : History)
      (rest : Pass (Option (CephTask × Error)))
      → ((h : History)
          → Ends rest (record { history = h; cluster = c }) (λ failed h'. Walks k c ts failed h h'))
      → (error : Option Error) (h : History) → Ran k c t.ordinal t.script before error h
      → Ends
          (next_task k t rest error)
          (record { history = h; cluster = c })
          (λ failed h'. Walks k c (t ∷ ts) failed before h')
  unfolding pure
  Walks-next_task c t ts before rest later none h ran =
      let (failed, h', e, walks) = later h in (failed, h', e, next ran walks)
  Walks-next_task c t ts before rest later (some e) h ran = (some (t, e), h, refl, stopped ran)

  -- Whatever the server and the executor answer, the loop over a plan ends with a result and leaves
  -- the cluster in memory as it is, and its calls and its result are those of a walk over the plan:
  -- the script of each task runs in order, up to the first task whose pod cannot be read or does not
  -- run, or whose run does not succeed, and that task is named.
  pub walk_plan-Walks :
      (plan : List CephTask) (s : Run)
      → Ends (walk_plan k plan) s (λ failed h. Walks k s.cluster plan failed s.history h)
  unfolding walk_plan pure
  walk_plan-Walks [] s = (none, s.history, refl, finished)
  walk_plan-Walks (t ∷ ts) s =
      Ends-bind (exec_script k t.ordinal t.script) _ s (exec_script-Ran k t.ordinal t.script s)
        (λ reply h ran.
          Walks-next_task s.cluster t ts s.history (walk_plan k ts)
            (λ h'. walk_plan-Walks ts (record s { history = h' })) reply.1 h ran)

-- ===== src/Controller/Reconcile/Fetched.antt =====
-- A pass of `Reconcile` in proxmoxcluster_controller.go, from the cluster that it fetched.
use multiprox.Prelude.{◌≡◌, sym, subst, [], ◌∷◌, All}
use multiprox.Api.Cluster.{ProxmoxCluster}
use multiprox.Errors.{ok}
use multiprox.Controller.Kube.{Key, Call, get_cluster, Run, Kube}
use multiprox.Controller.Pass.{attempt, request, ◌>>=◌}
use multiprox.Controller.Pass.Keeps.{Assertion, Outcome, Outcome-All, Keeps}
use multiprox.Controller.Status.{fetch_cluster}
use multiprox.Controller.Steps.{Requeue}
use multiprox.Controller.Reconcile.{start_from, reconcile}

-- before the first call, with whatever stands for the empty object that the fetch fills
abbrev pub fresh_run : ProxmoxCluster → Run
fresh_run nothing = record { history = []; cluster = nothing }

pub reconcile-Outcome :
    (k : Kube) (key : Key) (cluster nothing : ProxmoxCluster) {P : Call → Type 0}
    {K : Requeue → Assertion} {L : Assertion}
    → k.server.on_get_cluster [] key ≡ ok cluster
    → P (get_cluster key)
    → Keeps P (λ _. Unit) (start_from k (ok cluster)) K L
    → Outcome P K L (reconcile k key (fresh_run nothing))
unfolding reconcile fetch_cluster attempt request ◌>>=◌
reconcile-Outcome k key cluster nothing {P} {K} {L} fetched p t =
    let s : Run = record { history = get_cluster key ∷ []; cluster = nothing } in
    subst (λ r. Outcome P K L (start_from k r s)) (sym fetched) (t.holds s (p, tt) tt)

pub reconcile-All :
    (k : Kube) (key : Key) (cluster nothing : ProxmoxCluster) {P : Call → Type 0}
    {K : Requeue → Assertion} {L : Assertion}
    → k.server.on_get_cluster [] key ≡ ok cluster
    → P (get_cluster key)
    → Keeps P (λ _. Unit) (start_from k (ok cluster)) K L
    → All P (reconcile k key (fresh_run nothing)).1.history
reconcile-All k key cluster nothing {P} {K} {L} fetched p t =
    Outcome-All P K L _ (reconcile-Outcome k key cluster nothing fetched p t)

-- ===== src/Ceph/Plan/Order.antt =====
-- The order of the plan, and the scripts that its steps execute.
use multiprox.Prelude.{
  ℕ, ◌≤◌, ◌≡◌, refl, String, List, [], ◌∷◌, ◌++◌, map, arith, All, All-append, Option-cases, inl,
  inr,
}
use multiprox.Api.Cluster.{ProxmoxCluster}
use multiprox.Ceph.Plan.{
  CephStep, init, mon, mgr, osd, pool, status, CephTask, node_task, init_tasks, pool_tasks,
  ceph_plan,
}

-- the place of a step in the bootstrap sequence
abbrev pub rank : CephStep → ℕ
rank init = 1
rank mon = 2
rank mgr = 3
rank osd = 4
rank pool = 5
rank status = 6

-- the script that carries a step out
abbrev pub script_of : CephStep → String
script_of init = "/scripts/ceph-init.sh"
script_of mon = "/scripts/ceph-mon.sh"
script_of mgr = "/scripts/ceph-mgr.sh"
script_of osd = "/scripts/ceph-osd.sh"
script_of pool = "/scripts/ceph-pool.sh"
script_of status = "/scripts/ceph-status.sh"

-- the task executes the script of its step
abbrev pub HasItsScript : CephTask → Type 0
HasItsScript t = t.script ≡ script_of t.step

abbrev pub IsOrdered : List CephTask → Type 0
IsOrdered [] = Unit
IsOrdered (t ∷ ts) = All (λ u. rank t.step ≤ rank u.step) ts × IsOrdered ts

-- every rank of the list is `lo` or above, and `hi` or below
abbrev Within : ℕ → ℕ → List CephTask → Type 0
Within lo hi = All (λ t. (lo ≤ rank t.step) × (rank t.step ≤ hi))

Within-weaken :
    (lo hi lo' hi' : ℕ) (ts : List CephTask)
    → lo' ≤ lo
    → hi ≤ hi'
    → Within lo hi ts
    → Within lo' hi' ts
Within-weaken lo hi lo' hi' [] p q h = tt
Within-weaken lo hi lo' hi' (t ∷ ts) p q h =
    ((omega arith, omega arith), Within-weaken lo hi lo' hi' ts p q h.1)

All-above :
    (k lo hi : ℕ) (ts : List CephTask) → k ≤ lo → Within lo hi ts → All (λ u. k ≤ rank u.step) ts
All-above k lo hi [] p h = tt
All-above k lo hi (t ∷ ts) p h = (omega arith, All-above k lo hi ts p h.1)

IsOrdered-append :
    (lo mid hi : ℕ) (xs ys : List CephTask)
    → Within lo mid xs
    → Within mid hi ys
    → IsOrdered xs
    → IsOrdered ys
    → IsOrdered (xs ++ ys)
IsOrdered-append lo mid hi [] ys w v h k = k
IsOrdered-append lo mid hi (x ∷ xs) ys w v h k = (
  All-append _ xs ys h.0 (All-above (rank x.step) mid hi ys (omega arith) v),
  IsOrdered-append lo mid hi xs ys w.1 v h.1 k,
)

module _ (step : CephStep) (script : String) where
  node_tasks-Within :
      (is : List ℕ) → Within (rank step) (rank step) (map (node_task step script) is)
  node_tasks-Within [] = tt
  node_tasks-Within (i ∷ is) = ((omega arith, omega arith), node_tasks-Within is)

  node_tasks-IsOrdered : (is : List ℕ) → IsOrdered (map (node_task step script) is)
  node_tasks-IsOrdered [] = tt
  node_tasks-IsOrdered (i ∷ is) = (
    All-above (rank step) (rank step) (rank step) _ (omega arith) (node_tasks-Within is),
    node_tasks-IsOrdered is,
  )

rank-le : (step : CephStep) → rank step ≤ 6
rank-le step = ground arith

abbrev Grouped : ℕ → List CephTask → Type 0
Grouped lo ts = Within lo 6 ts × IsOrdered ts

-- tasks of one rank, in front of tasks of that rank or above
cons_group :
    (step : CephStep) (script : String) (is : List ℕ) (lo : ℕ) (ys : List CephTask)
    → rank step ≤ lo
    → Grouped lo ys
    → Grouped (rank step) (map (node_task step script) is ++ ys)
cons_group step script is lo ys p (w, o) =
    let k = rank step in
    let here = node_tasks-Within step script is in
    let later = Within-weaken lo 6 k 6 ys p (omega arith) w in
    (
      All-append _ _ ys (Within-weaken k k k 6 _ (omega arith) (rank-le step) here) later,
      IsOrdered-append k k 6 _ ys here later (node_tasks-IsOrdered step script is) o,
    )

pool_tasks-Grouped : Grouped 5 pool_tasks
pool_tasks-Grouped = (((omega arith, omega arith), tt), (tt, tt))

rank-lt_osd : rank osd ≤ 5
rank-lt_osd = omega arith

rank-lt_mgr : rank mgr ≤ 4
rank-lt_mgr = omega arith

rank-lt_mon : rank mon ≤ 3
rank-lt_mon = omega arith

plan_tasks-IsOrdered :
    (mons mgrs osds : List ℕ)
    → IsOrdered (
        init_tasks
        ++ (map (node_task mon "/scripts/ceph-mon.sh") mons
            ++ (map (node_task mgr "/scripts/ceph-mgr.sh") mgrs
                ++ (map (node_task osd "/scripts/ceph-osd.sh") osds ++ pool_tasks))))
plan_tasks-IsOrdered mons mgrs osds =
    let after_mgr = cons_group osd "/scripts/ceph-osd.sh" osds 5 _ rank-lt_osd pool_tasks-Grouped in
    let after_mon = cons_group mgr "/scripts/ceph-mgr.sh" mgrs 4 _ rank-lt_mgr after_mgr in
    let (w, o) = cons_group mon "/scripts/ceph-mon.sh" mons 3 _ rank-lt_mon after_mon in
    (All-above 1 2 6 _ (omega arith) w, o)

node_tasks-HasItsScript :
    (step : CephStep) (is : List ℕ) → All HasItsScript (map (node_task step (script_of step)) is)
node_tasks-HasItsScript step [] = tt
node_tasks-HasItsScript step (i ∷ is) = (refl, node_tasks-HasItsScript step is)

plan_tasks-HasItsScript :
    (mons mgrs osds : List ℕ)
    → All HasItsScript (
        init_tasks
        ++ (map (node_task mon "/scripts/ceph-mon.sh") mons
            ++ (map (node_task mgr "/scripts/ceph-mgr.sh") mgrs
                ++ (map (node_task osd "/scripts/ceph-osd.sh") osds ++ pool_tasks))))
plan_tasks-HasItsScript mons mgrs osds =
    let later = All-append _ _ pool_tasks (node_tasks-HasItsScript osd osds) (refl, tt) in
    let with_mgrs = All-append _ _ _ (node_tasks-HasItsScript mgr mgrs) later in
    (refl, All-append _ _ _ (node_tasks-HasItsScript mon mons) with_mgrs)

-- The plan is in bootstrap order: no task stands before one of an earlier step, and each task
-- executes the script of its step. So the script of the configuration is first, those of every
-- monitor and manager stand before that of the first OSD, and that of the pools comes last.
pub ceph_plan-IsOrdered :
    (cluster : ProxmoxCluster)
    → IsOrdered (ceph_plan cluster) × All HasItsScript (ceph_plan cluster)
unfolding ceph_plan
ceph_plan-IsOrdered cluster = elim (Option-cases cluster.spec.ceph) [
  | inl e ↦ rw (e, ceph_plan) (tt, tt)
  | inr (ceph, e) ↦ rw (e, ceph_plan) (plan_tasks-IsOrdered _ _ _, plan_tasks-HasItsScript _ _ _)
]

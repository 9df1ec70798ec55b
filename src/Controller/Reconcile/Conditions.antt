-- ===== src/Controller/Reconcile/Conditions.antt =====
-- What proxmoxcluster_controller.go relies on in client-go and apimachinery, and what it means for
-- the conditions.
use multiprox.Prelude.{
  ◌≡◌, refl, sym, eq_refl, String, Bool, true, false, not, List, ◌==◌, if◌then◌else◌,
}
use multiprox.Api.Meta.{Time, Condition}
use multiprox.Node.Projection.{is_true}
use multiprox.Controller.Kube.{Kube}
use multiprox.Controller.Pass.Keeps.{IsRetry, View}

-- The documented behaviour of the libraries: a retry runs its argument, again after a conflict; a
-- condition that is set replaces the one of its type and leaves the others.
pub record Laws (k : Kube) : Type 0 where
  pub retry : IsRetry k.retry_on_conflict
  pub condition :
      (now : Time) (cs : List Condition) (c : Condition) (type : String)
      → k.is_status_condition_true (k.set_status_condition now cs c) type
        ≡ (if c.type == type then is_true c.status else k.is_status_condition_true cs type)

abbrev pub IsTrue : Kube → String → View → Type 0
IsTrue k type v = k.is_status_condition_true v.conditions type ≡ true

pub is_true_of_not : (b : Bool) → not b ≡ false → b ≡ true
is_true_of_not true p = refl
is_true_of_not false p = sym p

module _ (k : Kube) (laws : Laws k) where
  -- setting a condition of another type leaves this one true
  pub IsTrue-other :
      (now : Time) (cs : List Condition) (c : Condition) (set type : String)
      → c.type ≡ set
      → (set == type) ≡ false
      → k.is_status_condition_true cs type ≡ true
      → k.is_status_condition_true (k.set_status_condition now cs c) type ≡ true
  IsTrue-other now cs c set type p q h = rw (laws.condition now cs c type, p, q, h)

  -- a condition of this type has the status that was set
  pub condition_set :
      (now : Time) (cs : List Condition) (c : Condition)
      → k.is_status_condition_true (k.set_status_condition now cs c) c.type ≡ is_true c.status
  condition_set now cs c = rw (laws.condition now cs c c.type, eq_refl c.type)

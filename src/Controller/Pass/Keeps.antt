-- ===== src/Controller/Pass/Keeps.antt =====
-- What a step does to the calls made and to the cluster in memory: every call meets `P`, and `J`
-- holds of the cluster before the step, `K` after a result and `L` after an error.
use multiprox.Prelude.{
  String, ◌≡◌, refl, subst, Bool, true, false, Option, List, ◌∷◌, All, if◌then◌else◌,
}
use multiprox.Api.Meta.{Condition}
use multiprox.Api.Cluster.{ProxmoxClusterSpec, CephStatus, ProxmoxCluster}
use multiprox.Errors.{Error, Result, ok, err, is_conflict}
use multiprox.Controller.Kube.{Call, History, Run, Pass}
use multiprox.Controller.Pass.{
  pure, raise, lift, attempt, with_context, request, deferred, the_cluster, modify, ◌>>=◌,
  wrap_result, continue,
}

-- the part of the cluster that the assertions speak of
pub record View : Type 0 where
  pub name : String
  pub spec : ProxmoxClusterSpec
  pub conditions : List Condition
  pub ceph : Option CephStatus

abbrev pub view : ProxmoxCluster → View
view c = record {
  name = c.meta.name;
  spec = c.spec;
  conditions = c.status.conditions;
  ceph = c.status.ceph;
}

abbrev pub Assertion : Type 1
Assertion = View → Type 0

module _ {A : Type 0} where
  abbrev pub Outcome : (Call → Type 0) → (A → Assertion) → Assertion → Result A × Run → Type 0
  Outcome P K L (ok a, s) = All P s.history × K a (view s.cluster)
  Outcome P K L (err e, s) = All P s.history × L (view s.cluster)

  pub record Keeps (P : Call → Type 0) (J : Assertion) (m : Pass A) (K : A → Assertion)
      (L : Assertion) : Type 0 where
    pub holds : (s : Run) → All P s.history → J (view s.cluster) → Outcome P K L (m s)

  -- the assertion holds throughout
  abbrev pub Stable : (Call → Type 0) → Assertion → Pass A → Type 0
  Stable P J m = Keeps P J m (λ _. J) J

module _ {A : Type 0} where
  Outcome-relax :
      (P : Call → Type 0) {K K' : A → Assertion} {L L' : Assertion}
      → ((a : A) (v : View) → K a v → K' a v)
      → ((v : View) → L v → L' v)
      → (out : Result A × Run) → Outcome P K L out
      → Outcome P K' L' out
  Outcome-relax P f g (ok a, s) (h, j) = (h, f a (view s.cluster) j)
  Outcome-relax P f g (err e, s) (h, j) = (h, g (view s.cluster) j)

  pub Outcome-All :
      (P : Call → Type 0) (K : A → Assertion) (L : Assertion) (out : Result A × Run)
      → Outcome P K L out
      → All P out.1.history
  Outcome-All P K L (ok a, s) h = h.0
  Outcome-All P K L (err e, s) h = h.0

module _ {A : Type 0} {P : Call → Type 0} where
  pub Keeps-relax :
      {J J' : Assertion} {m : Pass A} {K K' : A → Assertion} {L L' : Assertion}
      → ((v : View) → J' v → J v)
      → ((a : A) (v : View) → K a v → K' a v)
      → ((v : View) → L v → L' v)
      → Keeps P J m K L
      → Keeps P J' m K' L'
  Keeps-relax {m = m} i f g t = record {
    holds = λ s h j. Outcome-relax P f g (m s) (t.holds s h (i (view s.cluster) j));
  }

  -- a fact in the assertion is a hypothesis of the step
  pub Keeps-given :
      {J : Assertion} {X : Type 0} {m : Pass A} {K : A → Assertion} {L : Assertion}
      → (X → Keeps P J m K L)
      → Keeps P (λ v. J v × X) m K L
  Keeps-given t = record { holds = λ s h j. (t j.1).holds s h j.0 }

  pub Keeps-pure : {K : A → Assertion} {L : Assertion} (a : A) → Keeps P (K a) (pure a) K L
  unfolding pure
  Keeps-pure a = record { holds = λ s h j. (h, j) }

  pub Keeps-raise : {K : A → Assertion} {L : Assertion} (e : Error) → Keeps P L (raise e) K L
  unfolding raise
  Keeps-raise e = record { holds = λ s h j. (h, j) }

  pub Stable-request :
      {J : Assertion} (call : Call) (answer : History → Result A)
      → P call
      → Stable P J (request call answer)
  unfolding request
  Stable-request {J = J} call answer p = record {
    holds = λ s h j. go (answer s.history) (record s { history = call ∷ s.history }) (p, h) j;
  }
    where
      go :
          (r : Result A) (s : Run)
          → All P s.history
          → J (view s.cluster)
          → Outcome P (λ _. J) J (r, s)
      go (ok a) s h j = (h, j)
      go (err e) s h j = (h, j)

  -- the answer to a call, success or error, is one of the server
  pub Keeps-answered :
      {J L : Assertion} (call : Call) (answer : History → Result A)
      → P call
      → Keeps P J
          (attempt (request call answer))
          (λ found v. J v × ((h : History) × (answer h ≡ found)))
          L
  unfolding attempt request
  Keeps-answered call answer p = record { holds = λ s h j. ((p, h), (j, (s.history, refl))) }

  pub Stable-lift : {J : Assertion} (r : Result A) → Stable P J (lift r)
  unfolding lift
  Stable-lift (ok a) = record { holds = λ s h j. (h, j) }
  Stable-lift (err e) = record { holds = λ s h j. (h, j) }

  pub Stable-attempt : {J : Assertion} {m : Pass A} → Stable P J m → Stable P J (attempt m)
  unfolding attempt
  Stable-attempt {J = J} {m} t = record { holds = λ s h j. go (m s) (t.holds s h j) }
    where
      go :
          (out : Result A × Run)
          → Outcome P (λ _. J) J out
          → Outcome {A = Result A} P (λ _. J) J (ok out.0, out.1)
      go (ok a, s) h = h
      go (err e, s) h = h

  pub Keeps-with_context :
      {J : Assertion} {m : Pass A} {K : A → Assertion} {L : Assertion} (context : String)
      → Keeps P J m K L
      → Keeps P J (with_context context m) K L
  unfolding with_context
  Keeps-with_context {m = m} {K} {L} context t = record {
    holds = λ s h j. go (m s) (t.holds s h j);
  }
    where
      go :
          (out : Result A × Run)
          → Outcome P K L out
          → Outcome P K L (wrap_result context out.0, out.1)
      go (ok a, s) h = h
      go (err e, s) h = h

  -- the cleanup keeps what the step ends with
  pub Stable-deferred :
      {J : Assertion} {m : Pass A} {cleanup : Pass (Unit {0})}
      → Stable P J m
      → Stable P J cleanup
      → Stable P J (deferred m cleanup)
  unfolding deferred
  Stable-deferred {J} {m} {cleanup} t c = record { holds = λ s h j. go (m s) (t.holds s h j) }
    where
      cleaned :
          (s : Run) (out : Result (Unit {0}) × Run)
          → Outcome P (λ _. J) J out
          → All P out.1.history × J (view out.1.cluster)
      cleaned s (ok _, s') h = h
      cleaned s (err _, s') h = h

      go :
          (out : Result A × Run)
          → Outcome P (λ _. J) J out
          → Outcome P (λ _. J) J (out.0, (cleanup out.1).1)
      go (ok a, s) (h, j) = cleaned s (cleanup s) (c.holds s h j)
      go (err e, s) (h, j) = cleaned s (cleanup s) (c.holds s h j)

  pub Keeps-if :
      {J : Assertion} {m n : Pass A} {K : A → Assertion} {L : Assertion} (b : Bool)
      → (b ≡ true → Keeps P J m K L)
      → (b ≡ false → Keeps P J n K L)
      → Keeps P J (if b then m else n) K L
  Keeps-if true t u = t refl
  Keeps-if false t u = u refl

module _ {A B : Type 0} {P : Call → Type 0} where
  pub Keeps-bind :
      {J : Assertion} {m : Pass A} {f : A → Pass B} {K : A → Assertion} {M : B → Assertion}
      {L : Assertion}
      → Keeps P J m K L
      → ((a : A) → Keeps P (K a) (f a) M L)
      → Keeps P J (m >>= f) M L
  unfolding ◌>>=◌
  Keeps-bind {m = m} {f} {K} {M} {L} t u = record { holds = λ s h j. go (m s) (t.holds s h j) }
    where
      go : (out : Result A × Run) → Outcome P K L out → Outcome P M L (continue out.0 f out.1)
      go (ok a, s) (h, j) = (u a).holds s h j
      go (err e, s) h = h

module _ {B : Type 0} {P : Call → Type 0} where
  -- what holds of the cluster in memory is known of the value that the rest works on
  pub Keeps-bind_cluster :
      {J : Assertion} {f : ProxmoxCluster → Pass B} {M : B → Assertion} {L : Assertion}
      → ((c : ProxmoxCluster) → J (view c) → Keeps P J (f c) M L)
      → Keeps P J (the_cluster >>= f) M L
  unfolding the_cluster ◌>>=◌
  Keeps-bind_cluster u = record { holds = λ s h j. (u s.cluster j).holds s h j }

  -- the same, where the rest also knows that the value is the cluster in memory
  pub Keeps-bind_seen :
      {J : Assertion} {f : ProxmoxCluster → Pass B} {M : B → Assertion} {L : Assertion}
      → ((c : ProxmoxCluster) → J (view c) → Keeps P (λ v. J v × (view c ≡ v)) (f c) M L)
      → Keeps P J (the_cluster >>= f) M L
  unfolding the_cluster ◌>>=◌
  Keeps-bind_seen u = record { holds = λ s h j. (u s.cluster j).holds s h (j, refl) }

module _ {P : Call → Type 0} where
  pub Keeps-modify :
      {J K L : Assertion} (f : ProxmoxCluster → ProxmoxCluster)
      → ((c : ProxmoxCluster) → J (view c) → K (view (f c)))
      → Keeps P J (modify f) (λ _. K) L
  unfolding modify
  Keeps-modify f g = record { holds = λ s h j. (h, g s.cluster j) }

  pub Keeps-the_cluster : {J L : Assertion} → Keeps P J the_cluster (λ c v. J v × (view c ≡ v)) L
  unfolding the_cluster
  Keeps-the_cluster = record { holds = λ s h j. (h, (j, refl)) }

-- The runs of a retried step: it starts again only after a conflict.
pub data Retries (f : Pass (Unit {0})) : Run → Result (Unit {0}) × Run → Type 0 where
  last : {s : Run} {out : Result (Unit {0}) × Run} → f s ≡ out → Retries f s out
  again :
      {s s' : Run} {e : Error} {out : Result (Unit {0}) × Run}
      → f s ≡ (err e, s')
      → is_conflict e ≡ true
      → Retries f s' out
      → Retries f s out

-- `retry.RetryOnConflict` does nothing but run its argument, again after a conflict.
abbrev pub IsRetry : (Pass (Unit {0}) → Pass (Unit {0})) → Type 0
IsRetry retry = (f : Pass (Unit {0})) (s : Run) → Retries f s (retry f s)

module _ {P : Call → Type 0} {J : Assertion} {f : Pass (Unit {0})} (t : Stable P J f) where
  Retries-Outcome :
      (s : Run) (out : Result (Unit {0}) × Run)
      → Retries f s out
      → All P s.history
      → J (view s.cluster)
      → Outcome P (λ _. J) J out
  Retries-Outcome s out (last p) h j = subst (Outcome P (λ _. J) J) p (t.holds s h j)
  Retries-Outcome s out (again {s' = s'} p c r) h j =
      let (h', j') = subst (Outcome P (λ _. J) J) p (t.holds s h j) in
      Retries-Outcome s' out r h' j'

  pub Stable-retry :
      (retry : Pass (Unit {0}) → Pass (Unit {0})) → IsRetry retry → Stable P J (retry f)
  Stable-retry retry r = record { holds = λ s h j. Retries-Outcome s (retry f s) (r f s) h j }

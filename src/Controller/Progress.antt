-- ===== src/Controller/Progress.antt =====
-- Steps of a pass that end with a result, from what holds before them to what holds after them: of
-- the cluster in memory and of the calls made.
pub mod Status
pub mod Stages
pub mod Quiet
pub mod Provision
pub mod Ceph
pub mod Ready
pub mod Passes
use multiprox.Prelude.{String, ◌∷◌, ◌≡◌, refl, ap, ◌∙◌, Bool, true, false, if◌then◌else◌}
use multiprox.Api.Cluster.{ProxmoxCluster}
use multiprox.Errors.{Result, ok, err}
use multiprox.Controller.Kube.{Call, History, Run, Pass}
use multiprox.Controller.Pass.{
  ◌>>=◌, continue, wrap_result, pure, request, attempt, the_cluster, modify, with_context, lift,
  deferred,
}

abbrev pub Claim : Type 1
Claim = Run → Type 0

module _ {A : Type 0} where
  -- the step ends with a result
  abbrev pub Reaches : Pass A → Run → (A → Claim) → Type 0
  Reaches m s K = (a : A) × (s' : Run) × (m s ≡ (ok a, s')) × K a s'

  pub record Does (J : Claim) (m : Pass A) (K : A → Claim) : Type 0 where
    pub run : (s : Run) → J s → Reaches m s K

  pub Does-relax :
      {J J' : Claim} {m : Pass A} {K K' : A → Claim}
      → ((s : Run) → J' s → J s)
      → ((a : A) (s : Run) → K a s → K' a s)
      → Does J m K
      → Does J' m K'
  Does-relax f g d = record {
    run = λ s j. let (a, s', e, k) = d.run s (f s j) in (a, s', e, g a s' k);
  }

  pub Does-pure : {K : A → Claim} (a : A) → Does (K a) (pure a) K
  unfolding pure
  Does-pure a = record { run = λ s j. (a, s, refl, j) }

  pub Does-if :
      {J : Claim} {K : A → Claim} (b : Bool) (m n : Pass A)
      → (b ≡ true → Does J m K)
      → (b ≡ false → Does J n K)
      → Does J (if b then m else n) K
  Does-if true m n d e = d refl
  Does-if false m n d e = e refl

  -- a call that the server answers
  pub Does-request :
      {J : Claim} {K : A → Claim} (call : Call) (answer : History → Result A)
      → ((h : History) → (a : A) × (answer h ≡ ok a))
      → ((s : Run) (a : A)
          → answer s.history ≡ ok a
          → J s
          → K a (record s { history = call ∷ s.history }))
      → Does J (request call answer) K
  unfolding request
  Does-request call answer f g = record {
    run = λ s j.
        let (a, e) = f s.history in
        (
          a,
          record s { history = call ∷ s.history },
          ap (λ x. (x, record s { history = call ∷ s.history })) e,
          g s a e j,
        );
  }

  pub Does-with_context :
      {J : Claim} {m : Pass A} {K : A → Claim} (context : String)
      → Does J m K
      → Does J (with_context context m) K
  unfolding with_context
  Does-with_context context d = record {
    run = λ s j.
        let (a, s', e, k) = d.run s j in
        (a, s', ap (λ out. (wrap_result context out.0, out.1)) e, k);
  }

  pub Does-lift : {J : Claim} (r : Result A) (a : A) → r ≡ ok a → Does J (lift r) (λ _. J)
  unfolding lift
  Does-lift r a e = record { run = λ s j. (a, s, ap (λ x. (x, s)) e, j) }

module _ {A : Type 0} where
  pub Does-attempt :
      {J : Claim} {m : Pass A} {K : A → Claim}
      → Does J m K
      → Does J (attempt m) (λ r s. (a : A) × (r ≡ ok a) × K a s)
  unfolding attempt
  Does-attempt d = record {
    run = λ s j.
        let (a, s', e, k) = d.run s j in (ok a, s', ap (λ out. (ok out.0, out.1)) e, (a, refl, k));
  }

module _ {A B : Type 0} where
  pub Does-bind :
      {J : Claim} {m : Pass A} {f : A → Pass B} {K : A → Claim} {M : B → Claim}
      → Does J m K
      → ((a : A) → Does (K a) (f a) M)
      → Does J (m >>= f) M
  unfolding ◌>>=◌
  Does-bind {m = m} {f} d g = record {
    run = λ s j.
        let (a, s', e, k) = d.run s j in
        let (b, s'', e', m') = (g a).run s' k in
        (b, s'', ap (λ out. continue out.0 f out.1) e ∙ e', m');
  }

pub Does-modify :
    {J K : Claim} (f : ProxmoxCluster → ProxmoxCluster)
    → ((s : Run) → J s → K (record s { cluster = f s.cluster }))
    → Does J (modify f) (λ _. K)
unfolding modify
Does-modify f g = record { run = λ s j. (tt, record s { cluster = f s.cluster }, refl, g s j) }

pub Does-the_cluster : {J : Claim} → Does J the_cluster (λ c s. J s × (c ≡ s.cluster))
unfolding the_cluster
Does-the_cluster = record { run = λ s j. (s.cluster, s, refl, (j, refl)) }

-- `defer`: of what the step ends with, what the cleanup leaves is kept
pub Does-deferred :
    {A : Type 0} {J : Claim} {m : Pass A} {K K' : A → Claim} (cleanup : Pass (Unit {0}))
    → Does J m K
    → ((a : A) (s : Run) → K a s → K' a (cleanup s).1)
    → Does J (deferred m cleanup) K'
unfolding deferred
Does-deferred cleanup d g = record {
  run = λ s j.
      let (a, s', e, k) = d.run s j in
      (a, (cleanup s').1, ap (λ out. (out.0, (cleanup out.1).1)) e, g a s' k);
}

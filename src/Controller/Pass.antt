-- ===== src/Controller/Pass.antt =====
-- The steps that a pass is built from: results, errors, and one function for each call.
pub mod Keeps
use multiprox.Prelude.{String, ◌∷◌}
use multiprox.Errors.{Error, Result, ok, err, wrapped}
use multiprox.Api.Cluster.{ProxmoxCluster}
use multiprox.Api.Meta.{Time}
use multiprox.Controller.Kube.{Call, History, Pass, Kube}

module _ {A : Type 0} where
  unfoldable pub pure : A → Pass A
  pure a s = (ok a, s)

  unfoldable pub raise : Error → Pass A
  raise e s = (err e, s)

  unfoldable pub lift : Result A → Pass A
  lift r s = (r, s)

  -- the error as a value, for the code that looks at it
  unfoldable pub attempt : Pass A → Pass (Result A)
  attempt m s = let (r, s') = m s in (ok r, s')

  abbrev pub wrap_result : String → Result A → Result A
  wrap_result context (ok a) = ok a
  wrap_result context (err e) = err (wrapped context e)

  -- `if err := m; err != nil { return fmt.Errorf("context: %w", err) }`
  unfoldable pub with_context : String → Pass A → Pass A
  with_context context m s = let (r, s') = m s in (wrap_result context r, s')

  -- one call, and the server's answer at the history before it
  unfoldable pub request : Call → (History → Result A) → Pass A
  request call answer s = (answer s.history, record s { history = call ∷ s.history })

  -- `defer cleanup()`: it runs on every way out, and its error is only logged
  unfoldable pub deferred : Pass A → Pass (Unit {0}) → Pass A
  deferred m cleanup s = let (r, s') = m s in (r, (cleanup s').1)

unfoldable pub the_cluster : Pass ProxmoxCluster
the_cluster s = (ok s.cluster, s)

unfoldable pub modify : (ProxmoxCluster → ProxmoxCluster) → Pass (Unit {0})
modify f s = (ok tt, record s { cluster = f s.cluster })

-- `metav1.Now()`
unfoldable pub current_time : Kube → Pass Time
current_time k s = (ok (k.server.now s.history), s)

module _ {A B : Type 0} where
  abbrev pub continue : Result A → (A → Pass B) → Pass B
  continue (ok a) f s = f a s
  continue (err e) f s = (err e, s)

  infixl 10 ◌>>=◌ ◌>>◌
  unfoldable pub ◌>>=◌ : Pass A → (A → Pass B) → Pass B
  unfolding pure raise lift attempt with_context request deferred the_cluster modify current_time
  ◌>>=◌ m f s = let (r, s') = m s in continue r f s'

  abbrev pub ◌>>◌ : Pass A → Pass B → Pass B
  m >> n = m >>= λ _. n

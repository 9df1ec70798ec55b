-- ===== src/Operator/Examples.antt =====
-- The process of main.go where every call succeeds.
use multiprox.Prelude.{◌≡◌, ◌↔◌, refl, true, none}
use multiprox.Operator.{default_flags, Exit, Runtime, init, serve, main, checked, process}
use multiprox.Operator.Starts.{has_started, AllSucceed, Served, preparation, process-AllSucceed_iff}
use multiprox.Prelude.{[]}

abbrev calm : Runtime
calm h call = none

-- the flag for the number of concurrent reconciles is read by no call
one_at_a_time :
    process calm "" (record default_flags { max_concurrent_reconciles = 1 })
    ≡ process calm "" default_flags
unfolding process init main serve checked
one_at_a_time = refl

process-AllSucceed_iff_example :
    ((has_started (process calm "" default_flags).calls ≡ true)
      ↔ AllSucceed calm [] (preparation default_flags) (λ _. Unit {0}))
    × (((process calm "" default_flags).exit ≡ Exit.returned)
        ↔ AllSucceed calm [] (preparation default_flags) (Served calm "" default_flags))
process-AllSucceed_iff_example = process-AllSucceed_iff calm "" default_flags

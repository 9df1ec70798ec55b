-- ===== src/Operator/Starts.antt =====
-- How far the process of main.go gets, by the calls that succeed.
use multiprox.Prelude.{
  ◌≡◌, ◌↔◌, refl, String, Bool, true, false, Option, none, some, List, [], ◌∷◌, map, ◌++◌,
}
use multiprox.Errors.{Error}
use multiprox.Operator.{
  Flags, Call, Exit, Outcome, Runtime, manager_options, setup_with_manager, scheme, answered,
  checked, get_version, init, serve, main, process,
}

abbrev pub is_start : Call → Bool
is_start c = elim c [ Call.start_manager ↦ true | _ ↦ false ]

abbrev pub has_started : List Call → Bool
has_started [] = false
has_started (c ∷ cs) = elim (is_start c) [ true ↦ true | false ↦ has_started cs ]

-- each of these calls, in order, succeeds behind those before it, and then this holds
abbrev pub AllSucceed : Runtime → List Call → List Call → (List Call → Type 0) → Type 0
AllSucceed rt h [] Q = Q h
AllSucceed rt h (c ∷ cs) Q = (rt h c ≡ none) × AllSucceed rt (c ∷ h) cs Q

-- the calls that prepare the start of the manager, in their order
abbrev pub preparation : Flags → List Call
preparation flags =
    map Call.add_to_scheme scheme
    ++ Call.get_config
      ∷ Call.new_manager (manager_options scheme flags)
      ∷ Call.new_clientset
      ∷ Call.complete_controller setup_with_manager
      ∷ Call.add_healthz_check "healthz"
      ∷ Call.add_readyz_check "readyz"
      ∷ []

-- what every failure before the start of the manager rules out
abbrev pub Fatal : (Outcome → Type 0) → Type 0
Fatal P =
    (calls : List Call) (exit : Exit)
    → has_started calls ≡ false
    → ¬ (exit ≡ Exit.returned)
    → ¬ P (record { calls = calls; exit = exit })

module _ (rt : Runtime) (P : Outcome → Type 0) (fatal : Fatal P) where
  answered_iff :
      (Q : Type 0) (calls : List Call) (failed : Error → Exit) (rest : List Call → Outcome)
      (answer : Option Error)
      → has_started calls ≡ false
      → ((e : Error) → ¬ (failed e ≡ Exit.returned))
      → P (rest calls) ↔ Q
      → P (answered rt calls failed rest answer) ↔ ((answer ≡ none) × Q)
  answered_iff Q calls failed rest none early ends later =
      (λ p. (refl, later.0 p), λ q. later.1 q.1)
  answered_iff Q calls failed rest (some e) early ends later =
      (λ p. absurd (fatal calls (failed e) early (ends e) p), λ q. absurd (let wrong = q.0 in cc))

  checked_iff :
      (Q : Type 0) (call : Call) (failed : Error → Exit) (rest : List Call → Outcome)
      (h : List Call)
      → has_started (call ∷ h) ≡ false
      → ((e : Error) → ¬ (failed e ≡ Exit.returned))
      → P (rest (call ∷ h)) ↔ Q
      → P (checked rt call failed rest h) ↔ ((rt h call ≡ none) × Q)
  unfolding checked
  checked_iff Q call failed rest h early ends later =
      answered_iff Q (call ∷ h) failed rest (rt h call) early ends later

  panicked : (e : Error) → ¬ (Exit.panicked e ≡ Exit.returned)
  panicked e w = cc

  died : (e : Error) → ¬ (Exit.died e ≡ Exit.returned)
  died e w = cc

  exited : (message : String) (e : Error) → ¬ (Exit.exited message e ≡ Exit.returned)
  exited message e w = cc

  prepared_iff :
      (version : String) (flags : Flags) (Q : List Call → Type 0)
      → ((h : List Call) → P (serve rt version flags h) ↔ Q h)
      → P (process rt version flags) ↔ AllSucceed rt [] (preparation flags) Q
  unfolding process init main
  prepared_iff version flags Q served = checked_iff _ _ _ _ _ refl panicked (
      checked_iff _ _ _ _ _ refl panicked (
        checked_iff _ _ _ _ _ refl panicked (
          checked_iff _ _ _ _ _ refl panicked (
            checked_iff _ _ _ _ _ refl died (
              checked_iff _ _ _ _ _ refl (exited _) (
                checked_iff _ _ _ _ _ refl (exited _) (
                  checked_iff _ _ _ _ _ refl (exited _) (
                    checked_iff _ _ _ _ _ refl (exited _)
                      (checked_iff _ _ _ _ _ refl (exited _) (served _))))))))))

-- the history behind the preparation, with the line that is logged before the start
abbrev pub Served : Runtime → String → Flags → List Call → Type 0
Served rt version flags h =
    rt (Call.log_starting (get_version version) flags.leader_election ∷ h) Call.start_manager ≡ none

module _ (rt : Runtime) (version : String) (flags : Flags) where
  serve-started : (h : List Call) → (has_started (serve rt version flags h).calls ≡ true) ↔ Unit {0}
  unfolding serve checked
  serve-started h = (λ _. tt, λ _. reached (rt _ Call.start_manager))
    where
      reached :
          (answer : Option Error)
          → has_started
              (answered rt
                (Call.start_manager
                  ∷ Call.log_starting (get_version version) flags.leader_election
                  ∷ h)
                (Exit.exited "problem running manager")
                (λ done. record { calls = done; exit = Exit.returned })
                answer).calls
            ≡ true
      reached none = refl
      reached (some e) = refl

  serve-returned :
      (h : List Call)
      → ((serve rt version flags h).exit ≡ Exit.returned) ↔ Served rt version flags h
  unfolding serve checked
  serve-returned h = ended (rt _ Call.start_manager)
    where
      ended :
          (answer : Option Error)
          → ((answered rt
                (Call.start_manager
                  ∷ Call.log_starting (get_version version) flags.leader_election
                  ∷ h)
                (Exit.exited "problem running manager")
                (λ done. record { calls = done; exit = Exit.returned })
                answer).exit
              ≡ Exit.returned)
            ↔ (answer ≡ none)
      ended none = (λ _. refl, λ _. refl)
      ended (some e) = (λ w. absurd (cc), λ w. absurd (cc))

  -- Whatever the flags and the version: the process starts the manager exactly when each call that
  -- prepares the start succeeds, in their order, and `main` returns exactly when the manager then
  -- ends without an error too.
  pub process-AllSucceed_iff :
      ((has_started (process rt version flags).calls ≡ true)
        ↔ AllSucceed rt [] (preparation flags) (λ _. Unit {0}))
      × (((process rt version flags).exit ≡ Exit.returned)
          ↔ AllSucceed rt [] (preparation flags) (Served rt version flags))
  process-AllSucceed_iff = (
    prepared_iff rt (λ o. has_started o.calls ≡ true) (λ calls exit early ends p. absurd (cc))
        version flags _ serve-started,
    prepared_iff rt (λ o. o.exit ≡ Exit.returned) (λ calls exit early ends p. ends p) version flags
        _ serve-returned,
  )

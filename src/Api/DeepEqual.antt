-- ===== src/Api/DeepEqual.antt =====
-- `equality.Semantic.DeepEqual` (k8s.io/apimachinery) on the values that the operator compares: a
-- function that meets what the model asks of the parameter.
use mathlib.Core.Bool.{decide, decide_iff}
use native.Mathlib.Decide.{ℕ_discrete}
use multiprox.Prelude.{String, ◌≡◌, ◌↔◌, Bool, true, ◌==◌, eq_iff, Bool-cases, inl, inr}
use multiprox.Api.Meta.{StringMap}
use multiprox.Api.Node.{ProxmoxNodeStatus}

pub String_discrete : Discrete String
String_discrete s t = elim (Bool-cases (s == t)) [
  | inl same ↦ yes ((eq_iff s t).0 same)
  | inr other ↦ no (λ e. cc (other, (eq_iff s t).1 e))
]

pub status_discrete : Discrete ProxmoxNodeStatus
status_discrete = hlevel (String_discrete, ℕ_discrete)

pub map_discrete : Discrete StringMap
map_discrete = hlevel (String_discrete)

abbrev pub deep_equal : ProxmoxNodeStatus → ProxmoxNodeStatus → Bool
deep_equal a b = decide (status_discrete a b)

pub deep_equal_iff : (a b : ProxmoxNodeStatus) → (deep_equal a b ≡ true) ↔ (a ≡ b)
deep_equal_iff a b = decide_iff (status_discrete a b)

abbrev pub deep_equal_map : StringMap → StringMap → Bool
deep_equal_map a b = decide (map_discrete a b)

pub deep_equal_map_iff : (a b : StringMap) → (deep_equal_map a b ≡ true) ↔ (a ≡ b)
deep_equal_map_iff a b = decide_iff (map_discrete a b)

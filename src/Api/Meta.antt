-- ===== src/Api/Meta.antt =====
-- The Kubernetes types that the API's own types are built from, with the fields that the operator
-- reads or writes: object metadata and conditions (k8s.io/apimachinery, meta/v1).
use multiprox.Prelude.{ℕ, String, Bool, Option, none, List, []}
use multiprox.Prelude.Int.{ℤ, pos}

-- An instant, counted from Go's zero time.
abbrev pub Time : Type 0
Time = ℕ

abbrev pub zero_time : Time
zero_time = 0

abbrev pub StringMap : Type 0
StringMap = List (String × String)

pub data ConditionStatus : Type 0 where
  true_status false_status unknown_status : ConditionStatus

pub record Condition : Type 0 where
  pub type : String
  pub status : ConditionStatus
  pub observed_generation : ℤ
  pub last_transition_time : Time
  pub reason : String
  pub message : String

pub record OwnerReference : Type 0 where
  pub kind : String
  pub name : String
  pub uid : String
  pub controller : Bool

pub record ObjectMeta : Type 0 where
  pub name : String
  pub namespace : String
  pub uid : String
  pub resource_version : String
  pub generation : ℤ
  pub deletion_timestamp : Option Time
  pub labels : StringMap
  pub annotations : StringMap
  pub owner_references : List OwnerReference
  pub finalizers : List String

-- the metadata of an object that the operator builds: what it leaves out is Go's zero value
abbrev pub new_meta : String → String → StringMap → StringMap → ObjectMeta
new_meta name namespace labels annotations = record {
  name = name;
  namespace = namespace;
  uid = "";
  resource_version = "";
  generation = pos 0;
  deletion_timestamp = none;
  labels = labels;
  annotations = annotations;
  owner_references = [];
  finalizers = [];
}

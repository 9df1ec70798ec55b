-- ===== src/Exec.antt =====
-- exec.go: running a command in a pod. The SPDY executor (k8s.io/client-go) is a parameter.
pub mod Outcome
pub mod Examples
use Prim.Native.String.{len, slice}
use multiprox.Prelude.{
  ℕ, String, Bool, true, false, not, Option, none, some, List, [], ◌∷◌, ◌==◌, leb, if◌then◌else◌,
}
use multiprox.Text.Strings.{◌+++◌, trim_space, join, show_list}
use multiprox.Errors.{Error, failure, wrapped}

pub record Request : Type 0 where
  pub has_rest_config : Bool
  pub has_kube_client : Bool
  pub namespace : String
  pub pod : String
  pub container : String
  pub command : List String
  pub stdin : String

-- `corev1.PodExecOptions`
pub record PodExecOptions : Type 0 where
  pub container : String
  pub command : List String
  pub stdin : Bool
  pub stdout : Bool
  pub stderr : Bool
  pub tty : Bool

-- `NewSPDYExecutor`, whose `none` is success, and `StreamWithContext`: the combined output, and the
-- error of the stream or of a command that exits with another status than 0
pub record Executor : Type 0 where
  pub create : (namespace pod : String) → PodExecOptions → Option Error
  pub stream : (namespace pod : String) → PodExecOptions → (stdin : String) → String × Option Error

-- the first `n` bytes and an ellipsis; a character that the cut would split is left out whole
unfoldable pub truncate : String → ℕ → String
truncate s n = if leb (len s) n then s else slice s 0 n +++ "…"

abbrev pub exec_options : Request → PodExecOptions
exec_options req = record {
  container = if req.container == "" then "pve" else req.container;
  command = req.command;
  stdin = not (req.stdin == "");
  stdout = true;
  stderr = true;
  tty = false;
}

abbrev pub stream_result : Request → String × Option Error → String × Option Error
stream_result req (out, none) = (out, none)
stream_result req (out, some e) = (
  out,
  some (record e {
    text =
        "exec "
        +++ show_list req.command
        +++ " in "
        +++ req.namespace
        +++ "/"
        +++ req.pod
        +++ ": "
        +++ e.text
        +++ " — output: "
        +++ truncate (trim_space out) 600;
  }),
)

abbrev pub run_created : Executor → Request → Option Error → String × Option Error
run_created x req (some e) =
    ("", some (wrapped ("exec: create SPDY executor for " +++ req.namespace +++ "/" +++ req.pod) e))
run_created x req none =
    stream_result req (x.stream req.namespace req.pod (exec_options req) req.stdin)

abbrev pub is_empty_command : List String → Bool
is_empty_command [] = true
is_empty_command (_ ∷ _) = false

unfoldable pub run : Executor → Request → String × Option Error
unfolding truncate trim_space join
run x req =
    if not req.has_rest_config
    then ("", some (failure "exec: RestConfig is nil (operator not wired for pod exec)"))
    else if not req.has_kube_client
    then ("", some (failure "exec: KubeClient is nil (operator not wired for pod exec)"))
    else if is_empty_command req.command
    then ("", some (failure "exec: empty command"))
    else run_created x req (x.create req.namespace req.pod (exec_options req))

-- ===== src/Lib.antt =====
-- Verification of the multiprox operator (kubernetes/operator), which runs Proxmox VE clusters as
-- Kubernetes StatefulSets with Ceph configured from inside Proxmox.
--
-- The operator watches ProxmoxCluster objects. A pass of the reconciler checks the Ceph spec,
-- creates the Services, the ConfigMap with the scripts and the StatefulSet, waits for the pods,
-- and then runs scripts in them: first those that build the Proxmox cluster, then the plan that
-- sets up Ceph. At its end it refreshes one ProxmoxNode object for each node, a read-only view.
-- The parts, and the files that model them:
--
-- - Api: kubernetes/operator/api/v1alpha1/proxmoxcluster_types.go and proxmoxnode_types.go.
--   Api/Meta and Api/Pod hold the parts of k8s.io/apimachinery and k8s.io/api that the operator
--   reads or writes, Api/DeepEqual a model of equality.Semantic.DeepEqual, Api/Samples the
--   concrete objects of the tests.
-- - Workload: kubernetes/operator/internal/resources/service.go, statefulset.go and the objects of
--   configmap.go, as functions from the cluster to the objects (headless_service, ui_service,
--   stateful_set, config_map). StatefulSet/WellFormed says what the API server asks of a StatefulSet,
--   ConfigMap/Members what Corosync asks of a member list.
-- - Scripts: the shell scripts that configmap.go generates, as texts. What a shell does with them
--   is not modelled.
-- - Ceph: kubernetes/operator/internal/resources/ceph.go and effectivePools of configmap.go.
--   Counts and Pools fill in what a spec leaves open, Validate checks it, Plan lists the script
--   runs, Status reads the status line, Status/Line prints it as the script does.
-- - Node: kubernetes/operator/internal/resources/node.go. Inventory reads the lines of the
--   inventory script, Inventory/Lines prints them as the script does, Projection computes a
--   ProxmoxNode, Merge keeps the times of conditions that did not change.
-- - Exec: kubernetes/operator/internal/exec/exec.go, Exec/Outcome how a run ends. Errors:
--   Go's errors, with the reasons that the operator tests.
-- - Controller: kubernetes/operator/controllers/proxmoxcluster_controller.go. Kube holds what is
--   used of the libraries, Pass the steps that a pass is built from, Status updateStatus,
--   setCondition, the finalizers and execScript, Ensure the create-or-patch helpers, Nodes
--   reconcileNodes and upsertNode, Steps the cluster and Ceph bootstrap, and Reconcile the whole
--   pass. Each has modules below it that say what its steps keep and do: Pass/Keeps is a logic of
--   assertions on the calls made and the cluster in memory, whether a step ends with a result or
--   not. Steps/Ran, Steps/Walks and Steps/Counts are step relations for a run of a script, a walk over the
--   Ceph plan and the join loop, Steps/Completes such a walk
--   without errors, Nodes/Prunes and Nodes/Writes the calls of prune and upsert. Controller/Progress
--   is a logic of steps that end with a result; the modules below it follow whole passes, one after
--   another, against a server that stores what is written (Progress/Status), stage by stage
--   (Progress/Stages, Provision, Ceph, Ready, Quiet, Passes).
-- - Operator: kubernetes/operator/main.go and SetupWithManager, the start of the process, with the
--   libraries as a function from the calls made so far to an error or none.
-- - Prelude and Text: numbers, lists, and the functions of Go's strings, strconv and fmt in use.
--   The modules below Text relate what is printed and what is read (Text/Facts: key=value words).
--
-- A pass is a function on a state that holds the cluster in memory and the calls made so far. The
-- API server, its other clients, the executor and the clock are functions of these calls, so that
-- anything may happen between two of them. The server is a variable of what is stated about a
-- pass. RetryOnConflict, SetStatusCondition and IsStatusConditionTrue are parameters too;
-- Reconcile/Conditions states what is relied on, and Controller/Samples has functions that satisfy
-- it.
--
-- Choices: an int32 is an integer with the wrap-around written out where the code computes with
-- it, an ordinal a natural number, a text a list of characters, a time a natural number counted
-- from Go's zero time, a Go map an association list. A quantity is its text. The loops are
-- recursion on lists, so no fuel is needed but for printing a number, where the number itself is
-- enough.
--
-- Not modelled: the parsing of flags and the variable DEV_MODE, the generated deep copies, log
-- lines other than the one before the manager starts, the panic of resource.MustParse on a text that
-- is no quantity, the empty phase of a pod that the API server has not yet filled in, quoting of
-- characters outside ASCII, and a text cut within a character. The container images, the Helm chart,
-- the manifests and the end-to-end tests are in other languages.
pub mod Prelude
pub mod Text
pub mod Api
pub mod Workload
pub mod Ceph
pub mod Node
pub mod Scripts
pub mod Errors
pub mod Exec
pub mod Controller
pub mod Operator

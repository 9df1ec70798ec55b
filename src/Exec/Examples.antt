-- ===== src/Exec/Examples.antt =====
-- A run of a command on a concrete executor.
use multiprox.Prelude.{◌≡◌, ◌↔◌, true, none, [], ◌∷◌}
use multiprox.Exec.{Request, Executor, run}
use multiprox.Exec.Outcome.{Succeeds, streamed_reply, run-Succeeds_iff}

abbrev echo : Executor
echo = record {
  create = λ namespace pod options. none;
  stream = λ namespace pod options stdin. ("done\n", none);
}

abbrev wired : Request
wired = record {
  has_rest_config = true;
  has_kube_client = true;
  namespace = "pve";
  pod = "lab-0";
  container = "";
  command = "bash" ∷ "/scripts/ceph-init.sh" ∷ [];
  stdin = "";
}

run-Succeeds_iff_example :
    ((run echo wired).1 ≡ none)
    ↔ (Succeeds echo wired × ((run echo wired).0 ≡ (streamed_reply echo wired).0))
run-Succeeds_iff_example = run-Succeeds_iff echo wired

-- ===== src/Exec/Outcome.antt =====
-- When `Run` of exec.go succeeds, and with which output.
use multiprox.Prelude.{
  ◌≡◌, ◌↔◌, refl, ap, if◌then◌else◌, String, Bool, true, false, not, Option, none, some, arith,
}
use multiprox.Errors.{Error}
use multiprox.Exec.{
  Request, Executor, exec_options, is_empty_command, run_created, stream_result, run,
}

-- the operator is wired, there is a command, and the executor is created and ends without an error
pub record Succeeds (x : Executor) (req : Request) : Type 0 where
  pub configured : req.has_rest_config ≡ true
  pub connected : req.has_kube_client ≡ true
  pub asked : is_empty_command req.command ≡ false
  pub created : x.create req.namespace req.pod (exec_options req) ≡ none
  pub streamed : (x.stream req.namespace req.pod (exec_options req) req.stdin).1 ≡ none

if_error :
    (b : Bool) (e : Error) (rest : String × Option Error)
    → (if b then ("", some e) else rest).1 ≡ none
    → (b ≡ false) × (rest.1 ≡ none)
if_error true e rest h = absurd (cc)
if_error false e rest h = (refl, h)

module _ (x : Executor) (req : Request) where
  abbrev pub streamed_reply : String × Option Error
  streamed_reply = x.stream req.namespace req.pod (exec_options req) req.stdin

  stream_result-success :
      (reply : String × Option Error) → reply.1 ≡ none → stream_result req reply ≡ (reply.0, none)
  stream_result-success (out, none) h = refl
  stream_result-success (out, some e) h = absurd (cc)

  stream_result-error :
      (reply : String × Option Error) → (stream_result req reply).1 ≡ none → reply.1 ≡ none
  stream_result-error (out, none) h = refl
  stream_result-error (out, some e) h = absurd (cc)

  run_created-error :
      (created : Option Error)
      → (run_created x req created).1 ≡ none
      → (created ≡ none) × (streamed_reply.1 ≡ none)
  run_created-error none h = (refl, stream_result-error streamed_reply h)
  run_created-error (some e) h = absurd (cc)

  pub run-Succeeds : Succeeds x req → run x req ≡ (streamed_reply.0, none)
  unfolding run
  run-Succeeds s =
      rw (run, s.configured, s.connected, s.asked, s.created)
        (stream_result-success streamed_reply s.streamed)

  Succeeds-run : (run x req).1 ≡ none → Succeeds x req
  unfolding run
  Succeeds-run e =
      let (a, e1) = if_error (not req.has_rest_config) _ _ e in
      let (b, e2) = if_error (not req.has_kube_client) _ _ e1 in
      let (c, e3) = if_error (is_empty_command req.command) _ _ e2 in
      let (d, f) = run_created-error (x.create req.namespace req.pod (exec_options req)) e3 in
      record {
        configured = ground (arith);
        connected = ground (arith);
        asked = c;
        created = d;
        streamed = f;
      }

  -- A run ends without an error exactly where the operator is wired, there is a command, the executor
  -- is created and the stream ends without an error, and then its output is that of the stream.
  pub run-Succeeds_iff :
      ((run x req).1 ≡ none) ↔ (Succeeds x req × ((run x req).0 ≡ streamed_reply.0))
  run-Succeeds_iff = (
    λ e. let s = Succeeds-run e in (s, ap (λ r. r.0) (run-Succeeds s)),
    λ h. ap (λ r. r.1) (run-Succeeds h.0),
  )

-- ===== src/Tests/ReadinessController.antt =====
-- The readiness controller on a page that is ready and on one that never is.
use threadwire.Prelude.{
  ℕ, ◌+◌, ◌*◌, ◌≡◌, ◌⊎◌, refl, true, false, none, some, [], ◌∷◌, text, arith, is_some, text_beq,
  if◌then◌else◌, nat_beq,
}
use threadwire.Domain.Errors.{ok}
use threadwire.Domain.Runtime.{RuntimeLease, same_runtime_lease, same_runtime_identity}
use threadwire.Exec.{attempt, ◌>>=◌}
use threadwire.Exec.Rules.{Ends}
use threadwire.Turn.{on_thread, on_fresh_root}
use threadwire.Readiness.Gate as Gate
use threadwire.Readiness.Gate.{
  Snapshot, BlockingNotice, known_fresh_notice, count_frame, observe_target, count_epoch,
}
use threadwire.Readiness.Fresh as Fresh
use threadwire.Readiness.Fresh.{guard_answer}
use threadwire.Readiness.Controller.{
  existing_policy, fresh_policy, Policies, timer_fires, ReadinessPort, focused, Waiting, create,
  observe, abort_by_each, throw_if_expired, is_blocking, is_known_fresh, is_fresh_root, ask,
  throw_if_aborted, take_snapshot,
}
use threadwire.Readiness.Controller.Wait.{
  follow_focus, may_dismiss, handle_notice, act_on, handle_snapshot, round, wait_loop,
  wait_for_route,
}
use threadwire.Readiness.Controller.Routes.{
  is_thread, same_route_expectation, proves, keep_proof, wait_for_fresh_page,
  wait_for_turn_composer, finish_composer, prove_composer,
}
use threadwire.Readiness.Controller.Seen.{Anything}
use threadwire.Readiness.Controller.Settled.{ValidPolicies, Settled, wait_for_route-Settled}
use threadwire.Readiness.Controller.Proof.{IsProofOf}
use threadwire.Readiness.Controller.Proven.{wait_for_turn_composer-Proven}
use threadwire.Readiness.Controller.Keeping.{wait_for_fresh_page-Keeps}
use threadwire.Readiness.Controller.Deadline.{wait_for_route-Decided}

abbrev policies : Policies
policies = record { required_frame = λ p. 1; required_focus = λ p. 1; guard_duration_ms = 20 }

abbrev ready_page : Snapshot
ready_page = record {
  main_frame = record { frame_id = text "f"; loader_id = text "l"; expected_route = true };
  eligible_editables = record { backend_dom_node_id = 5; focused = true } ∷ [];
  backend_activity = record { active_count = 0; activity_epoch = 3 };
  blocking_notice = none;
}

abbrev port_of : (ℕ → Snapshot) → ReadinessPort
port_of snapshots = record {
  happens = λ n. if nat_beq n 4 then timer_fires ∷ [] else [];
  aborted_by_timeout = false;
  clock = λ n. 1000 + 10 * n;
  dismisses_notices = true;
  dismiss_known_fresh_notice = λ n. ok tt;
  readiness_snapshot = λ n. ok (snapshots n);
  focus_backend_node = λ n. focused;
  sleep = λ n. ok tt;
}

abbrev ready_port : ReadinessPort
ready_port = record (port_of (λ n. ready_page)) { happens = λ n. [] }

-- A notice of the fresh page that is gone once it has been dismissed.
abbrev noticed_port : ReadinessPort
noticed_port =
    record (port_of (λ n.
      if nat_beq n 0
      then record ready_page { blocking_notice = some (known_fresh_notice 7 8) }
      else ready_page)) { happens = λ n. [] }

-- A page without a composer.
abbrev empty_port : ReadinessPort
empty_port = port_of (λ n. record ready_page { eligible_editables = [] })

abbrev start : Waiting
start = record {
  tick = 0;
  caller_aborted = false;
  deadline = none;
  fresh_readiness_proof = none;
  observed = [];
}

abbrev lease : RuntimeLease
lease = record { generation = 1; identity = record { pid = 2; creation_time = text "t" } }

valid : ValidPolicies policies
valid p = (omega arith, omega arith)

abbrev after_notice : Waiting
after_notice = (wait_for_route noticed_port policies on_fresh_root 9 existing_policy start).0

wait_for_route-Settled_example : Settled policies existing_policy ready_page after_notice.observed
unfolding wait_for_route throw_if_aborted wait_loop round throw_if_expired take_snapshot ask ◌>>=◌
    attempt handle_snapshot act_on handle_notice may_dismiss is_fresh_root is_known_fresh
    is_blocking follow_focus abort_by_each create observe Gate.observe Fresh.observe count_frame
    observe_target text_beq
wait_for_route-Settled_example =
    wait_for_route-Settled noticed_port policies on_fresh_root 9 existing_policy start after_notice
      ready_page valid refl

abbrev after_fresh : Waiting
after_fresh = (wait_for_fresh_page ready_port policies 9 lease on_fresh_root start).0

wait_for_fresh_page-Keeps_example :
    (s : Snapshot) × Settled policies fresh_policy s after_fresh.observed
    × IsProofOf after_fresh.fresh_readiness_proof lease on_fresh_root s
unfolding keep_proof wait_for_route throw_if_aborted wait_loop round throw_if_expired take_snapshot
    ask ◌>>=◌ attempt handle_snapshot act_on is_blocking follow_focus abort_by_each create observe
    Gate.observe Fresh.observe count_frame observe_target text_beq
wait_for_fresh_page-Keeps_example =
    wait_for_fresh_page-Keeps ready_port policies 9 lease on_fresh_root start after_fresh valid refl

abbrev after_composer : Waiting
after_composer = (wait_for_turn_composer ready_port policies 9 lease on_fresh_root after_fresh).0

wait_for_turn_composer-Proven_example :
    ((s : Snapshot) × Settled policies existing_policy s after_composer.observed
      × IsProofOf after_fresh.fresh_readiness_proof lease on_fresh_root s)
    ⊎ ((s : Snapshot) × Settled policies fresh_policy s after_composer.observed)
unfolding wait_for_turn_composer finish_composer prove_composer proves same_runtime_lease
    same_runtime_identity same_route_expectation is_thread keep_proof wait_for_route
    throw_if_aborted wait_loop round throw_if_expired take_snapshot ask ◌>>=◌ attempt
    handle_snapshot act_on is_blocking follow_focus abort_by_each create observe Gate.observe
    Fresh.observe count_frame observe_target text_beq
wait_for_turn_composer-Proven_example =
    wait_for_turn_composer-Proven ready_port policies 9 lease on_fresh_root after_fresh
      after_composer valid refl refl

wait_for_route-Decided_example :
    Ends
      (λ s v. is_some s ≡ true)
      Anything
      (wait_for_route empty_port policies (on_thread (text "c")) 6 existing_policy start)
wait_for_route-Decided_example =
    wait_for_route-Decided empty_port policies (on_thread (text "c")) existing_policy start 4 5 tt
      (omega arith) (omega arith)

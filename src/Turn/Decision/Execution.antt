-- ===== src/Turn/Decision/Execution.antt =====
-- The same for the whole turn: what stands before the loop always ends.
use threadwire.Prelude.{
  ℕ, ◌+◌, ◌≤◌, ◌≡◌, refl, Bool, false, Bool-cases, inl, inr, Option, Text, arith,
}
use threadwire.Domain.Errors.{Result, ok, err}
use threadwire.Domain.Runtime.{RuntimeLease}
use threadwire.Domain.Identity.{Url, is_empty}
use threadwire.Exec.{raise, continue, ◌>>=◌}
use threadwire.Turn.{Turn, Act, TurnPort, TurnOptions, thread}
use threadwire.Turn.Completion.{Poll, again, done}
use threadwire.Turn.Outcome.{new_polling, wait_for_turn_outcome}
use threadwire.Turn.Submission.{
  follow, submit, execute_scheduled, execute_internal, release_observation,
}
use threadwire.Turn.Passing.{Decided}
use threadwire.Turn.Decision.{poll-Decided}

continue-Decided :
    {A : Type 0} (r : Turn × Result A) (f : ℕ → A → Act Poll)
    → ((a : A) (t : Turn) → (rounds : ℕ) × Decided (f rounds a t))
    → (rounds : ℕ) × Decided (continue r (f rounds))
continue-Decided (t, ok a) f k = k a t
continue-Decided (t, err e) f k = (0, tt)

bind-Decided :
    {A : Type 0} (m : Act A) (f : ℕ → A → Act Poll)
    → ((a : A) (t : Turn) → (rounds : ℕ) × Decided (f rounds a t))
    → (t : Turn) → (rounds : ℕ) × Decided ((m >>= f rounds) t)
unfolding ◌>>=◌
bind-Decided m f k t = continue-Decided (m t) f k

release-Decided : (r : Turn × Result Poll) → Decided r → Decided (release_observation r)
unfolding release_observation
release-Decided (t, ok (done result)) h = tt
release-Decided (t, err e) h = tt
release-Decided (t, ok (again p)) h = h

module _ (parse_url : Text → Option Url) (factory : ℕ → Text) (port : TurnPort)
    (options : TurnOptions) (lease : RuntimeLease) (silent : port.streaming ≡ false) (later : ℕ → ℕ)
    (passes : (bound n : ℕ) → later bound ≤ n → bound ≤ port.clock n) (handle : Text) where
  outcome-Decided :
      (c : Bool) (t : Turn)
      → (rounds : ℕ) × Decided
          (wait_for_turn_outcome parse_url factory port options lease rounds (thread handle) c t)
  unfolding wait_for_turn_outcome
  outcome-Decided c = bind-Decided _ _ λ time t.
      poll-Decided parse_url factory port options lease silent handle later passes
        (later (options.write_observation_timeout_ms + time)) (new_polling time c) t (omega arith)
        refl

  submit-Decided :
      (t : Turn)
      → (rounds : ℕ) × Decided
          (submit parse_url factory port options lease rounds (thread handle) t)
  unfolding submit follow
  submit-Decided =
      bind-Decided _ _ λ u. bind-Decided _ _ λ v. bind-Decided _ _ λ c. outcome-Decided c

  scheduled-Decided :
      (t : Turn)
      → (rounds : ℕ) × Decided
          (execute_scheduled parse_url factory port options lease rounds (thread handle) t)
  unfolding execute_scheduled
  scheduled-Decided = bind-Decided _ _ λ route. bind-Decided _ _ λ prepared.
      bind-Decided _ _ λ node. bind-Decided _ _ λ armed. bind-Decided _ _ λ observation t.
        let (rounds, decided) = submit-Decided t in (rounds, release-Decided _ decided)

  -- A turn on an existing thread whose caller does not listen returns or throws after some number of
  -- rounds, however the session and the signal behave, if the clock passes every bound and stays
  -- beyond it.
  pub execute_internal-Decided :
      (text : Text) (t : Turn)
      → (rounds : ℕ) × Decided
          (execute_internal parse_url factory port options lease rounds (thread handle) text t)
  unfolding execute_internal raise
  execute_internal-Decided text t = elim (Bool-cases (is_empty text)) [
    | inl empty ↦ (0, rw empty tt)
    | inr full ↦ rw full (scheduled-Decided t)
  ]

-- ===== src/Turn/Protocol/Execution.antt =====
-- What a whole turn delivers to its listener.
use threadwire.Prelude.{
  ℕ, ◌≡◌, refl, sym, ◌∙◌, Bool, true, false, Option, List, [], Text, inl, inr, subst, arith,
}
use threadwire.Domain.Errors.{Result, ok, err}
use threadwire.Domain.Runtime.{RuntimeLease}
use threadwire.Domain.Identity.{Url, is_empty}
use threadwire.Exec.{raise, modify}
use threadwire.Exec.Rules.{Ends, Triple, Triple-bind, Triple-if}
use threadwire.Turn.{
  Turn, Act, TurnPort, TurnOptions, TurnTarget, TurnResult, ResponseDeliveryState, ResponseEvent,
  is_aborted, new_response_state,
}
use threadwire.Turn.Completion.{Poll, again, done, is_project}
use threadwire.Turn.Submission.{
  commit, follow, submit, execute_scheduled, execute_internal, release_observation,
}
use threadwire.Turn.Protocol.{Begins, Completes, Completes-Begins, Stage, Stage-Begins, joined}
use threadwire.Turn.Protocol.Rules.{On, Quiet, Quiet-Triple, Quiet-gets, Quiet-attempt, Quiet-ask}
use threadwire.Turn.Protocol.Quiet.{Quiet-throw_if_aborted}
use threadwire.Turn.Protocol.Quiet.Submission.{
  pre_commit-Quiet, resolve-Quiet, prepare-Quiet, no_write-Quiet, fill_composer-Quiet, send-Quiet,
}
use threadwire.Turn.Protocol.Delivery.{Started, Staged-Quiet, true-false}
use threadwire.Turn.Protocol.Round.{Polled}
use threadwire.Turn.Protocol.Outcome.{outcome-Round}

-- Nothing has been delivered.
abbrev Silent : ResponseDeliveryState → List ResponseEvent → Type 0
Silent r l = l ≡ []

Silent-Begins : (l : List ResponseEvent) → l ≡ [] → Begins l
Silent-Begins l p = ([], inl p)

Quiet-Silent : {A : Type 0} (m : Act A) → Quiet m → Triple (On Silent) m (λ a. On Silent) Started
Quiet-Silent m q = Quiet-Triple Silent (λ r l. Begins l) m q λ r l p. Silent-Begins l p

module _ (parse_url : Text → Option Url) (factory : ℕ → Text) (port : TurnPort)
    (options : TurnOptions) (lease : RuntimeLease) (streaming : port.streaming ≡ true) where
  new-Stage :
      (deferred : Bool) (l : List ResponseEvent)
      → l ≡ []
      → Stage options (new_response_state deferred) l
  unfolding joined
  new-Stage true l p = ([], p, inr (refl, inr (refl, refl)), omega arith)
  new-Stage false l p = ([], p, inr (refl, inl (refl, refl)), omega arith)

  armed-Stage :
      (target : TurnTarget)
      → Triple
          (On Silent)
          (modify (λ t. record t { response = new_response_state (is_project target) }))
          (λ u. On (Stage options))
          Started
  unfolding modify
  armed-Stage target = record { at = λ t p. new-Stage (is_project target) t.delivered p }

  commit-Stage :
      (target : TurnTarget)
      → Triple
          (On Silent)
          (commit parse_url factory port options lease target)
          (λ u. On (Stage options))
          Started
  unfolding commit
  commit-Stage target =
      Triple-bind (λ u. On Silent) (Quiet-Silent _ (Quiet-throw_if_aborted port))
        λ u.
          Triple-bind (λ u. On (Stage options))
            (Triple-if port.streaming
              (λ s.
                Triple-bind (λ u. On Silent)
                  (Quiet-Silent _ (no_write-Quiet parse_url factory port options lease false))
                  λ u. armed-Stage target)
              (λ s. absurd (true-false (sym streaming ∙ s))))
            λ u.
              Staged-Quiet options _
                (fill_composer-Quiet parse_url factory port options lease target)

  submit-Polled :
      (rounds : ℕ) (target : TurnTarget)
      → Triple
          (On Silent)
          (submit parse_url factory port options lease rounds target)
          (Polled options)
          Started
  unfolding submit follow
  submit-Polled rounds target =
      Triple-bind (λ u. On (Stage options)) (commit-Stage target)
        λ u.
          Triple-bind (λ u. On (Stage options))
            (Staged-Quiet options _ (send-Quiet parse_url factory port options lease target))
            λ u.
              Triple-bind (λ c. On (Stage options))
                (Staged-Quiet options _ (Quiet-gets (is_aborted port)))
                λ c. outcome-Round parse_url factory port options lease streaming rounds target c

  release-Ends :
      (r : Turn × Result Poll)
      → Ends (Polled options) Started r
      → Ends (Polled options) Started (release_observation r)
  unfolding release_observation
  release-Ends (t, ok (again p)) h = h
  release-Ends (t, ok (done r)) h = h
  release-Ends (t, err e) h = h

  scheduled-Polled :
      (rounds : ℕ) (target : TurnTarget)
      → Triple
          (On Silent)
          (execute_scheduled parse_url factory port options lease rounds target)
          (Polled options)
          Started
  unfolding execute_scheduled
  scheduled-Polled rounds target =
      Triple-bind (λ a. On Silent) (Quiet-Silent _ (resolve-Quiet target))
        λ route.
          Triple-bind (λ a. On Silent)
            (Quiet-Silent _ (Quiet-attempt _ (prepare-Quiet port target)))
            λ prepared.
              Triple-bind (λ a. On Silent) (Quiet-Silent _ (pre_commit-Quiet prepared))
                λ node.
                  Triple-bind (λ a. On Silent)
                    (Quiet-Silent _ (Quiet-attempt _ (Quiet-ask port port.arm_turn_observation)))
                    λ armed.
                      Triple-bind (λ a. On Silent) (Quiet-Silent _ (pre_commit-Quiet armed))
                        λ observation. record {
                          at = λ t p. release-Ends _ ((submit-Polled rounds target).at t p);
                        }

  executed-Polled :
      (rounds : ℕ) (target : TurnTarget) (text : Text)
      → Triple
          (On Silent)
          (execute_internal parse_url factory port options lease rounds target text)
          (Polled options)
          Started
  unfolding execute_internal raise
  executed-Polled rounds target text =
      Triple-if (is_empty text) (λ e. record { at = λ t p. Silent-Begins t.delivered p })
        (λ e. scheduled-Polled rounds target)

  -- A streamed turn whose listener has been given nothing before returns only after the listener
  -- has been given deltas, then as the final text their join, then the end, and nothing else; the
  -- final text is not blank and no longer than the executor allows. This holds for each target and
  -- however the session, the clock, the signal and the listener behave.
  pub execute_internal-Completes :
      (rounds : ℕ) (target : TurnTarget) (text : Text) (t t' : Turn) (r : TurnResult)
      → t.delivered ≡ []
      → execute_internal parse_url factory port options lease rounds target text t
        ≡ (t', ok (done r))
      → Completes options t'.delivered
  execute_internal-Completes rounds target text t t' r silent p =
      subst (Ends (Polled options) Started) p ((executed-Polled rounds target text).at t silent)

  Ends-Begins : (r : Turn × Result Poll) → Ends (Polled options) Started r → Begins r.0.delivered
  Ends-Begins (t, ok (again p)) h = Stage-Begins options t.response t.delivered h
  Ends-Begins (t, ok (done r)) h = Completes-Begins options t.delivered h
  Ends-Begins (t, err e) h = h

  -- Whatever becomes of a streamed turn (it returns, throws or is still polling after any number of
  -- rounds), its listener, which had been given nothing before, has been given a beginning of such
  -- a sequence: deltas, then at most the final text that joins them, then at most the end.
  pub execute_internal-Begins :
      (rounds : ℕ) (target : TurnTarget) (text : Text) (t : Turn)
      → t.delivered ≡ []
      → Begins
          (execute_internal parse_url factory port options lease rounds target text t).0.delivered
  execute_internal-Begins rounds target text t silent =
      Ends-Begins _ ((executed-Polled rounds target text).at t silent)

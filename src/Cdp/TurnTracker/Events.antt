-- ===== src/Cdp/TurnTracker/Events.antt =====
-- The network events of a turn whose write has succeeded, whatever the tracker makes of them.
use threadwire.Prelude.{
  ℕ, ◌≡◌, ◌≢◌, ◌≤◌, ◌<◌, refl, sym, ap, subst, ◌∙◌, Bool, true, false, not, ◌||◌, Option, none,
  some, List, [], ◌∷◌, ◌++◌, Text, ◌==◌, text_eq, bool_eq, text_beq_iff, is_the, arith, All,
}
use threadwire.Domain.Identity.{Url}
use threadwire.Cdp.ResponseTracker.{StreamCall}
use threadwire.Cdp.TurnTracker.{
  prepare, write, classify_turn_request, is_successful_http_status, WriteLifecycle, finished,
  write_failed, is_active, NetworkEvent, request_will_be_sent, response_received, request_settled,
}

pub append_assoc : {A : Type 0} (xs ys zs : List A) → (xs ++ ys) ++ zs ≡ xs ++ (ys ++ zs)
append_assoc [] ys zs = refl
append_assoc (x ∷ xs) ys zs = ap (λ l. x ∷ l) (append_assoc xs ys zs)

pub none-some : {A : Type 0} {a : A} → none ≡ some a → ⊥
none-some p = cc

pub true-false : true ≡ false → ⊥
true-false p = cc

pub some-injective : {A : Type 0} (a b : A) → some a ≡ some b → a ≡ b
some-injective a b p = cc

pub not-finished : (l : Option WriteLifecycle) → l ≡ some finished → is_active l ≡ true → ⊥
not-finished l p q = true-false (sym q ∙ ap is_active p)

pub not-write_failed : (l : Option WriteLifecycle) → l ≡ some write_failed → is_active l ≡ true → ⊥
not-write_failed l p q = true-false (sym q ∙ ap is_active p)

-- The request of the event is another one than the write's.
pub other-request :
    (id : Option Text) (request r : Text)
    → id ≡ some request
    → is_the ◌==◌ id r ≡ false
    → r ≢ request
other-request id request r named other same =
    true-false (
      sym ((text_beq_iff request r).1 (sym same))
      ∙ subst (λ i. is_the ◌==◌ i r ≡ false) named other)

pub or-true : (b : Bool) → (b || true) ≡ false → ⊥
or-true true p = cc
or-true false p = cc

pub successful :
    (status : ℕ) → is_successful_http_status status ≡ true → (200 ≤ status) × (status < 300)
unfolding is_successful_http_status
successful status p = (ground arith, ground arith)

pub unanswered :
    (same going redirected : Bool)
    → (not same || not going || redirected) ≡ true
    → going ≡ true
    → redirected ≡ false
    → same ≡ false
unanswered same going redirected left p q = ground arith

pub prepare-write : prepare ≡ write → ⊥
prepare-write p = cc

pub failed-finished : write_failed ≡ finished → ⊥
failed-finished p = cc

pub append_nil : {A : Type 0} (xs : List A) → xs ++ [] ≡ xs
append_nil [] = refl
append_nil (x ∷ xs) = ap (λ l. x ∷ l) (append_nil xs)

-- The event is no redirect of the request.
unfoldable pub NotRedirect : Text → NetworkEvent → Type 0
NotRedirect request (request_will_be_sent r raw_url method true) = r ≢ request
NotRedirect request e = Unit {0}

pub no_redirect :
    (request r raw_url : Text) (method : Option Text) (redirected : Bool)
    → r ≢ request
    → NotRedirect request (request_will_be_sent r raw_url method redirected)
unfolding NotRedirect
no_redirect request r raw_url method true other = other
no_redirect request r raw_url method false other = tt

-- The event is no response to the request.
unfoldable pub NotResponse : Text → NetworkEvent → Type 0
NotResponse request (response_received r status call) = r ≢ request
NotResponse request e = Unit {0}

module _ (parse_url : Text → Option Url) where
  -- The event is no request that writes a turn.
  unfoldable pub NotWrite : NetworkEvent → Type 0
  NotWrite (request_will_be_sent r raw_url method redirected) =
      classify_turn_request parse_url raw_url method ≢ some write
  NotWrite e = Unit {0}

  -- The first write among the events is that of the request; `since` came after it.
  pub record Selected (request : Text) (since es : List NetworkEvent) : Type 0 where
    pub before : List NetworkEvent
    pub raw_url : Text
    pub method : Option Text
    pub redirected : Bool
    pub split : es ≡ before ++ request_will_be_sent request raw_url method redirected ∷ since
    pub none_before : All NotWrite before
    pub is_write : classify_turn_request parse_url raw_url method ≡ some write

-- The last response to the request among the events has a status from 200 to 299.
pub record Answered (request : Text) (since : List NetworkEvent) : Type 0 where
  pub before : List NetworkEvent
  pub status : ℕ
  pub call : StreamCall
  pub after : List NetworkEvent
  pub split : since ≡ before ++ response_received request status call ∷ after
  pub last : All (NotResponse request) after
  pub lower : 200 ≤ status
  pub upper : status < 300

module _ (parse_url : Text → Option Url) where
  -- The events select a write request, then show no redirect of it and a last response with success,
  -- and then its end without a failure; others may follow.
  pub record Succeeded (es : List NetworkEvent) : Type 0 where
    pub request : Text
    pub shown : List NetworkEvent
    pub since : List NetworkEvent
    pub rest : List NetworkEvent
    pub split : es ≡ shown ++ request_settled request false ∷ rest
    pub selected : Selected parse_url request since shown
    pub direct : All (NotRedirect request) since
    pub answered : Answered request since

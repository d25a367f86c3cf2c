-- ===== src/Routing/Registry/Reachable.antt =====
-- The calls that change a registry keep its invariant, so every reachable registry has it.
use threadwire.Prelude.{ℕ, ◌≡◌, refl, inl, inr, Option, List, [], ◌∷◌, Text, nat_eq, text_eq}
use threadwire.Domain.Errors.{Result, ok, err}
use threadwire.Domain.Identity.{Url, create_conversation_locator}
use threadwire.Routing.Registry.{
  ThreadRegistry, ThreadRegistrationResult, ProvisionalThreadRegistrationResult, new_registry,
  register_normalized, reserve_normalized, commit_provisional, rollback_provisional,
  register_with_status, reserve_provisional_with_status,
}
use threadwire.Routing.Registry.Invariant.{
  Inv, new_registry-Inv, add_committed-Inv, add_provisional-Inv, commit_entry-Inv,
  rollback_entry-Inv,
}
use threadwire.Routing.Registry.Calls.{
  with_calls, with_calls-Inv, Registers, register-Registers, Reserves, reserve-Reserves,
  owned_entry-cases,
}

pub register_normalized-Inv :
    (factory : ℕ → Text) (r : ThreadRegistry) (n : Text)
    → Inv r
    → Inv (register_normalized factory r n).0
register_normalized-Inv factory r n v =
    go (register_normalized factory r n) (register-Registers factory r n)
  where
    go : (q : ThreadRegistry × Result ThreadRegistrationResult) → Registers r n q → Inv q.0
    go q (Registers.listed h e p) = rw p v
    go q (Registers.failed k x e p) = rw p (with_calls-Inv r k v)
    go q (Registers.added k h e u p) =
        rw p (add_committed-Inv (with_calls r k) (with_calls-Inv r k v) h n u e)

pub reserve_normalized-Inv :
    (factory : ℕ → Text) (r : ThreadRegistry) (n : Text)
    → Inv r
    → Inv (reserve_normalized factory r n).0
reserve_normalized-Inv factory r n v =
    go (reserve_normalized factory r n) (reserve-Reserves factory r n)
  where
    go :
        (q : ThreadRegistry × Result ProvisionalThreadRegistrationResult) → Reserves r n q → Inv q.0
    go q (Reserves.listed h e p) = rw p v
    go q (Reserves.failed k x e p) = rw p (with_calls-Inv r k v)
    go q (Reserves.added k h e u p) =
        rw p (add_provisional-Inv (with_calls r k) (with_calls-Inv r k v) h n u e)

commit_provisional-Inv : (r : ThreadRegistry) (x : ℕ) → Inv r → Inv (commit_provisional r x).0
unfolding commit_provisional
commit_provisional-Inv r x v = elim (owned_entry-cases r x) [
  | inl e ↦ rw (e, commit_provisional) v
  | inr (h, l, e, o) ↦ rw (e, commit_provisional) (commit_entry-Inv r v x h l o)
]

rollback_provisional-Inv : (r : ThreadRegistry) (x : ℕ) → Inv r → Inv (rollback_provisional r x).0
unfolding rollback_provisional
rollback_provisional-Inv r x v = elim (owned_entry-cases r x) [
  | inl e ↦ rw (e, rollback_provisional) v
  | inr (h, l, e, o) ↦ rw (e, rollback_provisional) (rollback_entry-Inv r v x h l o)
]

-- The calls that change a registry.
pub data Call : Type 0 where
  registers : Text → Call
  reserves : Text → Call
  commits : ℕ → Call
  rolls_back : ℕ → Call

module _ (parse_url : Text → Option Url) (factory : ℕ → Text) where
  unfoldable pub after_call : ThreadRegistry → Call → ThreadRegistry
  after_call r (registers l) = (register_with_status parse_url factory r l).0
  after_call r (reserves l) = (reserve_provisional_with_status parse_url factory r l).0
  after_call r (commits x) = (commit_provisional r x).0
  after_call r (rolls_back x) = (rollback_provisional r x).0

  unfoldable pub after_calls : ThreadRegistry → List Call → ThreadRegistry
  unfolding after_call
  after_calls r [] = r
  after_calls r (c ∷ cs) = after_calls (after_call r c) cs

  after_call-Inv : (r : ThreadRegistry) (c : Call) → Inv r → Inv (after_call r c)
  unfolding after_call register_with_status reserve_provisional_with_status
  after_call-Inv r (registers l) v = go (create_conversation_locator parse_url l) refl
    where
      go :
          (c : Result Text)
          → create_conversation_locator parse_url l ≡ c
          → Inv (after_call r (registers l))
      go (ok n) e = rw (e, after_call, register_with_status) (register_normalized-Inv factory r n v)
      go (err x) e = rw (e, after_call, register_with_status) v
  after_call-Inv r (reserves l) v = go (create_conversation_locator parse_url l) refl
    where
      go :
          (c : Result Text)
          → create_conversation_locator parse_url l ≡ c
          → Inv (after_call r (reserves l))
      go (ok n) e =
          rw (e, after_call, reserve_provisional_with_status) (reserve_normalized-Inv factory r n v)
      go (err x) e = rw (e, after_call, reserve_provisional_with_status) v
  after_call-Inv r (commits x) v = commit_provisional-Inv r x v
  after_call-Inv r (rolls_back x) v = rollback_provisional-Inv r x v

  after_calls-Inv : (r : ThreadRegistry) (cs : List Call) → Inv r → Inv (after_calls r cs)
  unfolding after_calls
  after_calls-Inv r [] v = v
  after_calls-Inv r (c ∷ cs) v = after_calls-Inv (after_call r c) cs (after_call-Inv r c v)

  -- After any calls on a new registry its four maps agree: a handle is committed or provisional and
  -- not both, each has one locator and that locator lists it, and each open transaction owns
  -- exactly one provisional handle.
  pub reachable-Inv : (cs : List Call) → Inv (after_calls new_registry cs)
  reachable-Inv cs = after_calls-Inv new_registry cs new_registry-Inv

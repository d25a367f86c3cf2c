-- ===== src/Response/Consumer/Chunks/Rounds.antt =====
-- One round of the loop over the lines, and the text that it leaves.
use threadwire.Prelude.{
  ℕ, zero, suc, ◌+◌, ◌≤◌, ◌<◌, ◌≡◌, refl, sym, ◌∙◌, ap, inl, inr, Bool, true, false, Option, none,
  some, [], ◌∷◌, ◌++◌, Text, ◌==◌, nat_eq, if◌then◌else◌, length, Bool-cases, arith, ltb,
}
use threadwire.Response.Json.{Json}
use threadwire.Response.Consumer.{
  Consumer, Outcome, buffer_overflow, assert_pending_text_bound, consume_line, consume_lines,
  split_at, strip_cr, ◌>>=◌, name_length,
}
use threadwire.Response.Consumer.Chunks.{
  with_buffer, threw, went, Follows, runs, ended, assert_pending-Runs,
}
use threadwire.Response.Consumer.Chunks.Lines.{consume_line-Follows}

-- `split_at` of a text that begins with `c`, by what it tests and finds behind it.
abbrev split_cons : ℕ → Bool → Option (Text × Text) → Text → Option (Text × Text)
split_cons c true found s = some ([], s)
split_cons c false none s = none
split_cons c false (some (l, r)) s = some (c ∷ l, r)

split_cons-eq : (m c : ℕ) (s : Text) → split_at m (c ∷ s) ≡ split_cons c (c == m) (split_at m s) s
unfolding split_at
split_cons-eq m c s = go (c == m) (split_at m s)
  where
    go :
        (hit : Bool) (found : Option (Text × Text))
        → (if hit then some ([], s) else elim found as (λ _. Option (Text × Text)) [
          | none ↦ none
          | some (l, r) ↦ some (c ∷ l, r)
        ])
          ≡ split_cons c hit found s
    go true found = refl
    go false none = refl
    go false (some (l, r)) = refl

split_cons-append :
    (c : ℕ) (hit : Bool) (found found' : Option (Text × Text)) (b d l r : Text)
    → ((l' r' : Text) → found ≡ some (l', r') → found' ≡ some (l', r' ++ d))
    → split_cons c hit found b ≡ some (l, r)
    → split_cons c hit found' (b ++ d) ≡ some (l, r ++ d)
split_cons-append c true found found' b d l r k h = cc
split_cons-append c false none found' b d l r k h = cc
split_cons-append c false (some (l', r')) found' b d l r k h =
    ap (λ f. split_cons c false f (b ++ d)) (k l' r' refl) ∙ cc

split_cons-length :
    (c : ℕ) (hit : Bool) (found : Option (Text × Text)) (b l r : Text)
    → ((l' r' : Text) → found ≡ some (l', r') → length r' < length b)
    → split_cons c hit found b ≡ some (l, r)
    → length r < suc (length b)
split_cons-length c true found b l r k h = ground arith
split_cons-length c false none b l r k h = cc
split_cons-length c false (some (l', r')) b l r k h = let shorter = k l' r' refl in ground arith

pub split_at-append :
    (m : ℕ) (b d l r : Text) → split_at m b ≡ some (l, r) → split_at m (b ++ d) ≡ some (l, r ++ d)
unfolding split_at
split_at-append m [] d l r h = cc
split_at-append m (c ∷ b) d l r h =
    split_cons-eq m c (b ++ d)
    ∙ split_cons-append c (c == m) (split_at m b) (split_at m (b ++ d)) b d l r
        (split_at-append m b d) (sym (split_cons-eq m c b) ∙ h)

pub split_at-length : (m : ℕ) (b l r : Text) → split_at m b ≡ some (l, r) → length r < length b
unfolding split_at
split_at-length m [] l r h = cc
split_at-length m (c ∷ b) l r h =
    split_cons-length c (c == m) (split_at m b) b l r (split_at-length m b)
      (sym (split_cons-eq m c b) ∙ h)

module _ {D : Type 0} where
  pub bind-none :
      (q : Outcome D) (k : Consumer D → Outcome D) (x : Consumer D)
      → q >>= k ≡ (x, none)
      → (c : Consumer D) × (q ≡ (c, none)) × (k c ≡ (x, none))
  bind-none (c, none) k x p = (c, refl, p)
  bind-none (c, some f) k x p = cc

module _ {D : Type 0} (parse_json : Text → Option Json) where
  -- What one round does with its line.
  abbrev pub round : Text → Text → Consumer D → Outcome D
  round line rest c =
      consume_line parse_json (strip_cr line) (with_buffer rest c) >>= assert_pending_text_bound

  abbrev pub step_of : ℕ → Bool → Option (Text × Text) → Consumer D → Outcome D
  step_of n true found c = (c, none)
  step_of n false none c = (c, none)
  step_of n false (some (line, rest)) c = round line rest c >>= consume_lines parse_json n

  lines-step :
      (n : ℕ) (c : Consumer D)
      → consume_lines parse_json (suc n) c ≡ step_of n c.completed (split_at 10 c.text_buffer) c
  unfolding consume_lines
  lines-step n c = go c.completed (split_at 10 c.text_buffer)
    where
      go :
          (done : Bool) (found : Option (Text × Text))
          → (elim done as (λ _. Outcome D) [
            | true ↦ (c, none)
            | false ↦ elim found [
              | none ↦ (c, none)
              | some (line, rest) ↦ round line rest c >>= consume_lines parse_json n
            ]
          ])
            ≡ step_of n done found c
      go true found = refl
      go false none = refl
      go false (some (line, rest)) = refl

  pub lines-found :
      (n : ℕ) (b : Text) (c : Consumer D) (found : Option (Text × Text))
      → c.completed ≡ false
      → split_at 10 b ≡ found
      → consume_lines parse_json (suc n) (with_buffer b c) ≡ step_of n false found (with_buffer b c)
  lines-found n b c found o p =
      lines-step n (with_buffer b c)
      ∙ ap (λ done. step_of n done (split_at 10 b) (with_buffer b c)) o
      ∙ ap (λ f. step_of n false f (with_buffer b c)) p

  pub lines-done :
      (n : ℕ) (c : Consumer D) → c.completed ≡ true → consume_lines parse_json n c ≡ (c, none)
  unfolding consume_lines
  lines-done zero c done = refl
  lines-done (suc n) c done =
      lines-step n c ∙ ap (λ d. step_of n d (split_at 10 c.text_buffer) c) done

  pub round-Follows :
      (s t line : Text) (c : Consumer D)
      → length t ≤ length s
      → c.completed ≡ false
      → Follows s t (round line s c) (round line t c)
  unfolding assert_pending_text_bound
  round-Follows s t line c h o = go (consume_line-Follows parse_json s t (strip_cr line) c h o)
    where
      go :
          {q r : Outcome D}
          → Follows s t q r
          → Follows s t (q >>= assert_pending_text_bound) (r >>= assert_pending_text_bound)
      go (runs (threw d f p)) = runs (threw d f (rw p refl))
      go (runs (went d p p' still)) = rw (p, p') (runs (assert_pending-Runs s t d h still))
      go (ended d p p' done empty) =
          elim (Bool-cases (
            ltb d.limits.max_pending_text_chars
              (length d.text_buffer + name_length d.event_name + d.pending_data_chars))) [
                | inl full ↦ runs (threw d buffer_overflow (rw (p, full) refl))
                | inr fits ↦ ended d (rw (p, fits) refl) (rw (p', fits) refl) done empty
              ]

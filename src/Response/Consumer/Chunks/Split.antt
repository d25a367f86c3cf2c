-- ===== src/Response/Consumer/Chunks/Split.antt =====
-- A text may be pushed in one piece or in two.
use threadwire.Prelude.{
  ℕ, zero, suc, ◌+◌, ◌<◌, ◌≡◌, refl, sym, ◌∙◌, ap, subst, Bool, true, false, Option, none, some, [],
  ◌∷◌, ◌++◌, Text, nat_eq, if◌then◌else◌, length, length-append, arith, ltb,
}
use threadwire.Response.Json.{Json}
use threadwire.Response.Consumer.{
  Consumer, Outcome, FailureKind, buffer_overflow, assert_pending_text_bound, consume_line,
  consume_lines, push_decoded, split_at, strip_cr, ◌>>=◌, name_length,
}
use threadwire.Response.Consumer.Chunks.{with_buffer, threw, went, Follows, runs, ended}
use threadwire.Response.Consumer.Chunks.Rounds.{
  split_at-append, split_at-length, bind-none, lines-found, lines-done, round-Follows,
}
use threadwire.Response.Consumer.Chunks.Fuel.{lines-fuel}

append_nil : (s : Text) → s ++ [] ≡ s
append_nil [] = refl
append_nil (c ∷ s) = ap (λ t. c ∷ t) (append_nil s)

append_assoc : (r s t : Text) → (r ++ s) ++ t ≡ r ++ (s ++ t)
append_assoc [] s t = refl
append_assoc (c ∷ r) s t = ap (λ u. c ∷ u) (append_assoc r s t)

if-none : (b : Bool) → (if b then some buffer_overflow else none) ≡ none → b ≡ false
if-none true p = cc
if-none false p = refl

module _ {D : Type 0} (parse_json : Text → Option Json) where
  -- The rest of a push, and what was pushed in two pieces.
  Fed : Text → Consumer D → Outcome D → Type 0
  Fed d x q = (e : Consumer D) × (q ≡ (e, none)) × (push_decoded parse_json d e ≡ (x, none))

  -- The text behind a buffer with no line break is pushed as it would have been with the buffer.
  Fed-stop :
      (n m : ℕ) (b d : Text) (c x : Consumer D)
      → c.completed ≡ false
      → split_at 10 b ≡ none
      → length (b ++ d) < n
      → consume_lines parse_json n (with_buffer (b ++ d) c) ≡ (x, none)
      → assert_pending_text_bound (with_buffer (b ++ d) c) ≡ (with_buffer (b ++ d) c, none)
      → Fed d x (consume_lines parse_json (suc m) (with_buffer b c))
  unfolding Fed push_decoded
  Fed-stop n m b [] c x o p hn all fits =
      let whole = append_nil b in
      (
        with_buffer b c,
        lines-found parse_json m b c none o p,
        sym (lines-found parse_json (length b) b c none o p)
            ∙ lines-fuel parse_json (suc (length b)) n b c o (omega arith)
                (subst (λ s. length s < n) whole hn)
            ∙ subst (λ s. consume_lines parse_json n (with_buffer s c) ≡ (x, none)) whole all,
      )
  Fed-stop n m b (h ∷ d) c x o p hn all fits =
      let s = b ++ h ∷ d in
      let loop : Consumer D → Outcome D =
        λ c. consume_lines parse_json (suc (length c.text_buffer)) c in
      (
        with_buffer b c,
        lines-found parse_json m b c none o p,
        ap
              (λ done.
                if done
                then (with_buffer b c, none)
                else assert_pending_text_bound (with_buffer s c) >>= loop)
              o
            ∙ ap (λ q. q >>= loop) fits
            ∙ lines-fuel parse_json (suc (length s)) n s c o (omega arith) hn
            ∙ all,
      )

  -- A push to a consumer that has completed does nothing.
  push-done :
      (d : Text) (x : Consumer D) → x.completed ≡ true → push_decoded parse_json d x ≡ (x, none)
  unfolding push_decoded
  push-done [] x done = refl
  push-done (h ∷ d) x done =
      ap
        (λ done.
          if done
          then (x, none)
          else assert_pending_text_bound (record x { text_buffer = x.text_buffer ++ h ∷ d })
            >>= λ d. consume_lines parse_json (suc (length d.text_buffer)) d)
        done

  -- A call that ends with the check of the bound leaves a consumer that passes it.
  assert-last :
      (q : Outcome D) (w : Consumer D)
      → q >>= assert_pending_text_bound ≡ (w, none)
      → assert_pending_text_bound w ≡ (w, none)
  unfolding assert_pending_text_bound
  assert-last (z, none) w p =
      subst (λ w. assert_pending_text_bound w ≡ (w, none)) (ap (λ r. r.0) p)
        (ap (λ f. (z, f)) (ap (λ r. r.1) p))
  assert-last (z, some f) w p = cc

  none-threw : (e x : Consumer D) (f : FailureKind) → ◌≡◌ {A = Outcome D} (e, some f) (x, none) → ⊥
  none-threw e x f p = cc

  -- What the round of the longer buffer gives, if the loop goes on to the end.
  Fed-lines :
      (n m : ℕ) (b d : Text) (c x : Consumer D)
      → c.completed ≡ false
      → length (b ++ d) < n
      → length b < m
      → consume_lines parse_json n (with_buffer (b ++ d) c) ≡ (x, none)
      → assert_pending_text_bound (with_buffer (b ++ d) c) ≡ (with_buffer (b ++ d) c, none)
      → Fed d x (consume_lines parse_json m (with_buffer b c))
  unfolding Fed
  Fed-lines zero m b d c x o hn hm all fits = absurd (omega arith)
  Fed-lines (suc n) zero b d c x o hn hm all fits = absurd (omega arith)
  Fed-lines (suc n) (suc m) b d c x o hn hm all fits = go (Fed-lines n m) (split_at 10 b) refl
    where
      Next : Type 0
      Next =
          (rest d : Text) (c x : Consumer D)
          → c.completed ≡ false
          → length (rest ++ d) < n
          → length rest < m
          → consume_lines parse_json n (with_buffer (rest ++ d) c) ≡ (x, none)
          → assert_pending_text_bound (with_buffer (rest ++ d) c)
            ≡ (with_buffer (rest ++ d) c, none)
          → Fed d x (consume_lines parse_json m (with_buffer rest c))

      after :
          Next
          → (rest : Text) → length (rest ++ d) < n
          → length rest < m
          → {q r : Outcome D} → Follows (rest ++ d) rest q r
          → q >>= consume_lines parse_json n ≡ (x, none)
          → ((w : Consumer D) → q ≡ (w, none) → assert_pending_text_bound w ≡ (w, none))
          → Fed d x (r >>= consume_lines parse_json m)
      after ih rest hn hm (runs (threw e f p)) all last =
          absurd (none-threw e x f (sym (ap (λ q. q >>= consume_lines parse_json n) p) ∙ all))
      after ih rest hn hm (runs (went e p p' still)) all last =
          subst (λ r. Fed d x (r >>= consume_lines parse_json m)) (sym p')
            (ih rest d e x still hn hm (sym (ap (λ q. q >>= consume_lines parse_json n) p) ∙ all)
              (last (with_buffer (rest ++ d) e) p))
      after ih rest hn hm (ended e p p' done empty) all last =
          subst (λ r. Fed d x (r >>= consume_lines parse_json m)) (sym p')
            (
              e,
              lines-done parse_json m e done,
              push-done d e done
                  ∙ sym (lines-done parse_json n e done)
                  ∙ sym (ap (λ q. q >>= consume_lines parse_json n) p)
                  ∙ all,
            )

      go :
          Next
          → (found : Option (Text × Text)) → split_at 10 b ≡ found
          → Fed d x (consume_lines parse_json (suc m) (with_buffer b c))
      go ih none p = Fed-stop (suc n) m b d c x o p hn all fits
      go ih (some (line, rest)) p =
          let shorter = split_at-length 10 b line rest p in
          let lengths = length-append rest d in
          let lengths' = length-append b d in
          let all' =
            sym (
              lines-found parse_json n (b ++ d) c (some (line, rest ++ d)) o
                (split_at-append 10 b d line rest p))
            ∙ all in
          subst (Fed d x) (sym (lines-found parse_json m b c (some (line, rest)) o p)) (
            after ih rest (omega arith) (omega arith)
              (round-Follows parse_json (rest ++ d) rest line c (omega arith) o) all'
              (assert-last (consume_line parse_json (strip_cr line) (with_buffer (rest ++ d) c))))

  loop : Consumer D → Outcome D
  loop c = consume_lines parse_json (suc (length c.text_buffer)) c

  push-open :
      (h : ℕ) (s : Text) (c : Consumer D)
      → c.completed ≡ false
      → push_decoded parse_json (h ∷ s) c
        ≡ assert_pending_text_bound (with_buffer (c.text_buffer ++ h ∷ s) c) >>= loop
  unfolding push_decoded loop
  push-open h s c o =
      ap
        (λ done.
          if done
          then (c, none)
          else assert_pending_text_bound (with_buffer (c.text_buffer ++ h ∷ s) c) >>= loop)
        o

  -- The check of the bound changes nothing, and a shorter buffer passes it too.
  passed :
      (w y : Consumer D)
      → assert_pending_text_bound w ≡ (y, none)
      → (w ≡ y) × (assert_pending_text_bound w ≡ (w, none))
  unfolding assert_pending_text_bound
  passed w y p = (ap (λ r. r.0) p, ap (λ f. (w, f)) (ap (λ r. r.1) p))

  passed_shorter :
      (b d : Text) (c : Consumer D)
      → assert_pending_text_bound (with_buffer (b ++ d) c) ≡ (with_buffer (b ++ d) c, none)
      → assert_pending_text_bound (with_buffer b c) ≡ (with_buffer b c, none)
  unfolding assert_pending_text_bound
  passed_shorter b d c p =
      let within =
        if-none
          (ltb c.limits.max_pending_text_chars
            (length (b ++ d) + name_length c.event_name + c.pending_data_chars))
          (ap (λ r. r.1) p) in
      let lengths = length-append b d in
      let shorter : ltb c.limits.max_pending_text_chars
            (length b + name_length c.event_name + c.pending_data_chars)
          ≡ false =
        ground arith in
      ap (λ full. (with_buffer b c, if full then some buffer_overflow else none)) shorter

  -- A text that is pushed in one piece, without a failure, to a consumer that is not complete may be
  -- cut in two: the first piece is pushed without a failure, and the second then leaves the consumer
  -- as the whole text does.
  pub push_decoded-cut :
      (b d : Text) (c x : Consumer D)
      → c.completed ≡ false
      → push_decoded parse_json (b ++ d) c ≡ (x, none)
      → (e : Consumer D) × (push_decoded parse_json b c ≡ (e, none))
        × (push_decoded parse_json d e ≡ (x, none))
  unfolding Fed loop push_decoded
  push_decoded-cut [] d c x o all = (c, refl, all)
  push_decoded-cut (h ∷ b) d c x o all =
      let s = c.text_buffer ++ h ∷ b in
      let whole =
        subst (λ w. assert_pending_text_bound (with_buffer w c) >>= loop ≡ (x, none))
          (sym (append_assoc c.text_buffer (h ∷ b) d)) (sym (push-open h (b ++ d) c o) ∙ all) in
      let (y, at_y, rest) =
        bind-none (assert_pending_text_bound (with_buffer (s ++ d) c)) loop x whole in
      let (same, fits) = passed (with_buffer (s ++ d) c) y at_y in
      let (e, first, second) =
        Fed-lines (suc (length (s ++ d))) (suc (length s)) s d c x o (omega arith) (omega arith)
          (ap loop same ∙ rest) fits in
      (e, push-open h b c o ∙ ap (λ q. q >>= loop) (passed_shorter s d c fits) ∙ first, second)

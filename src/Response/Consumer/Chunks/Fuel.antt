-- ===== src/Response/Consumer/Chunks/Fuel.antt =====
-- The loop over the lines has fuel enough.
use threadwire.Prelude.{
  ℕ, zero, suc, ◌<◌, ◌≡◌, refl, sym, ◌∙◌, false, Option, none, some, Text, nat_eq, length, arith,
}
use threadwire.Response.Json.{Json}
use threadwire.Response.Consumer.{Consumer, Outcome, consume_lines, split_at, ◌>>=◌}
use threadwire.Response.Consumer.Chunks.{with_buffer, threw, went, Follows, runs, ended}
use threadwire.Response.Consumer.Chunks.Rounds.{
  split_at-length, lines-found, lines-done, round-Follows,
}

module _ {D : Type 0} (parse_json : Text → Option Json) where
  -- In a consumer that is not complete, any two amounts of fuel above the length of the buffer give
  -- the loop over the lines the same result.
  pub lines-fuel :
      (n m : ℕ) (b : Text) (c : Consumer D)
      → c.completed ≡ false
      → length b < n
      → length b < m
      → consume_lines parse_json n (with_buffer b c) ≡ consume_lines parse_json m (with_buffer b c)
  lines-fuel zero m b c o hn hm = ground arith
  lines-fuel (suc n) zero b c o hn hm = ground arith
  lines-fuel (suc n) (suc m) b c o hn hm = go (lines-fuel n m) (split_at 10 b) refl
    where
      same :
          ((rest : Text) (d : Consumer D)
            → d.completed ≡ false
            → length rest < n
            → length rest < m
            → consume_lines parse_json n (with_buffer rest d)
              ≡ consume_lines parse_json m (with_buffer rest d))
          → (rest : Text) → length rest < n
          → length rest < m
          → {q : Outcome D} → Follows rest rest q q
          → q >>= consume_lines parse_json n ≡ q >>= consume_lines parse_json m
      same ih rest hn hm (runs (threw d f p)) = rw p refl
      same ih rest hn hm (runs (went d p p' still)) = rw p (ih rest d still hn hm)
      same ih rest hn hm (ended d p p' done empty) =
          rw p (lines-done parse_json n d done ∙ sym (lines-done parse_json m d done))

      go :
          ((rest : Text) (d : Consumer D)
            → d.completed ≡ false
            → length rest < n
            → length rest < m
            → consume_lines parse_json n (with_buffer rest d)
              ≡ consume_lines parse_json m (with_buffer rest d))
          → (found : Option (Text × Text)) → split_at 10 b ≡ found
          → consume_lines parse_json (suc n) (with_buffer b c)
            ≡ consume_lines parse_json (suc m) (with_buffer b c)
      go ih none p =
          lines-found parse_json n b c none o p ∙ sym (lines-found parse_json m b c none o p)
      go ih (some (line, rest)) p =
          let shorter = split_at-length 10 b line rest p in
          lines-found parse_json n b c (some (line, rest)) o p
          ∙ same ih rest (omega arith) (omega arith)
              (round-Follows parse_json rest rest line c (omega arith) o)
          ∙ sym (lines-found parse_json m b c (some (line, rest)) o p)

-- ===== src/Prelude/Strings.antt =====
-- JavaScript strings as lists of UTF-16 code units, which is what `length` counts.
use Prim.Native.Char.{code}
use Prim.Native.String.{String}
use Prim.Native.Nat.{ℕ}
use mathlib.Core.Path.{◌≡◌}
use mathlib.Core.Logic.{◌↔◌}
use mathlib.Core.Bool.{Bool, true, false, ◌&&◌}
use mathlib.Core.List.{List, [], ◌∷◌}
use native.Mathlib.Omega.{arith}
use mathlib.Core.Option.{Option, none, some}
use threadwire.Prelude.Tests.{nat_beq, Eq, if◌then◌else◌}

abbrev pub Text : Type 0
Text = List ℕ

-- A literal of the source; all of them are ASCII.
abbrev pub text : String → Text
text String.[] = []
text (String.◌∷◌ c s) = code c ∷ text s

unfoldable pub text_beq : Text → Text → Bool
text_beq [] [] = true
text_beq [] (b ∷ bs) = false
text_beq (a ∷ as') [] = false
text_beq (a ∷ as') (b ∷ bs) = nat_beq a b && text_beq as' bs

pub text_beq_iff : (s t : Text) → (text_beq s t ≡ true) ↔ (s ≡ t)
unfolding text_beq
text_beq_iff [] [] = ground arith
text_beq_iff [] (b ∷ bs) = ground arith
text_beq_iff (a ∷ as') [] = ground arith
text_beq_iff (a ∷ as') (b ∷ bs) = ground (arith, text_beq_iff as' bs)

instance abbrev pub text_eq : Eq Text
text_eq = record { beq = text_beq; beq_iff = text_beq_iff }

-- s.startsWith(p), with what follows
abbrev pub strip_prefix : Text → Text → Option Text
strip_prefix [] s = some s
strip_prefix (a ∷ p) [] = none
strip_prefix (a ∷ p) (b ∷ s) = let rest = strip_prefix p s in if nat_beq a b then rest else none

-- s.replace(/\/$/, "")
unfoldable pub trim_slash : Text → Text
trim_slash [] = []
trim_slash (c ∷ []) = if nat_beq c b'/' then [] else c ∷ []
trim_slash (c ∷ d ∷ s) = c ∷ trim_slash (d ∷ s)

-- ===== src/Prelude/Prefix.antt =====
-- What Python's `s.startswith(p)` and `s.removeprefix(p)` say together.
use Prim.Native.Nat.{ℕ}
use Prim.Native.Char.{code}
use Prim.Native.String.{String, [], ◌∷◌, ◌++◌}
use mathlib.Core.Path.{◌≡◌, refl}
use mathlib.Core.Bool.{true}
use mathlib.Core.Option.{Option, none, some}
use native.Mathlib.Omega.{arith}
use text.Mathlib.TextLemmas.{nil-append, cons-append}
use b24_sinedis.Prelude.Tests.{◌==◌, comparable_ids, if◌then◌else◌}

-- What follows a prefix, if a text starts with it.
unfoldable pub after_prefix : String → String → Option String
after_prefix [] s = some s
after_prefix (c ∷ p) [] = none
after_prefix (c ∷ p) (d ∷ s) = if code c == code d then after_prefix p s else none

same_id : (n : ℕ) → (n == n) ≡ true
same_id n = ground arith

nil-some : (s : String) → after_prefix [] ([] ++ s) ≡ some s
unfolding after_prefix
nil-some s = rw (nil-append s) refl

pub after_prefix-append : (p s : String) → after_prefix p (p ++ s) ≡ some s
unfolding after_prefix
after_prefix-append [] s = nil-some s
after_prefix-append (c ∷ p) s = rw (cons-append c p s, same_id (code c)) (after_prefix-append p s)

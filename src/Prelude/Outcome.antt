-- ===== src/Prelude/Outcome.antt =====
-- Runs over a state `S`. `fault` is a failed `ASSERT`, an `UNREACHABLE` or an `abort()`.
use mathlib.Core.Bool.{Bool, true, false}
use mathlib.Core.Path.{◌≡◌, refl, subst₂}
use mathlib.Core.Logic.{◌⊎◌, inl, inr}
use dangless_malloc.Prelude.Tests.{if◌then◌else◌}

pub data Run (S A : Type 0) : Type 0 where
  ok : A → S → Run S A
  fault : Run S A

abbrev pub Cmd : Type 0 → Type 0 → Type 0
Cmd S A = S → Run S A

abbrev pub pure : {S A : Type 0} → A → Cmd S A
pure = ok

module _ {S A B : Type 0} where
  abbrev pub and_then : Run S A → (A → Cmd S B) → Run S B
  and_then (ok a s) k = k a s
  and_then fault k = fault

  infixl 5 ◌>>=◌ ◌>>◌
  abbrev pub ◌>>=◌ : Cmd S A → (A → Cmd S B) → Cmd S B
  m >>= k = λ s. and_then (m s) k

  abbrev pub ◌>>◌ : Cmd S A → Cmd S B → Cmd S B
  m >> k = m >>= λ _. k

module _ {S : Type 0} where
  -- `ASSERT0(cond)` of common/assert.h in a build without NDEBUG.
  abbrev pub assert : Bool → Cmd S (Unit {0})
  assert true s = ok tt s
  assert false s = fault

  abbrev pub get : Cmd S S
  get s = ok s s

  abbrev pub put : S → Cmd S (Unit {0})
  put s' s = ok tt s'

-- The run ends, with a result and a state of which `Q` holds.
pub data After {S A : Type 0} (Q : A → S → Type 0) : Run S A → Type 0 where
  returns : {a : A} {s : S} → Q a s → After Q (ok a s)

pub after_bind :
    {S A B : Type 0} {P : A → S → Type 0} {Q : B → S → Type 0} {m : Run S A} (k : A → Cmd S B)
    → After P m
    → ((a : A) (s : S) → P a s → After Q (k a s))
    → After Q (and_then m k)
after_bind k (returns {a} {s} h) next = next a s h

pub after_map :
    {S A : Type 0} {P Q : A → S → Type 0} {m : Run S A}
    → After P m
    → ((a : A) (s : S) → P a s → Q a s)
    → After Q m
after_map (returns {a} {s} h) weaken = returns (weaken a s h)

pub after_ok :
    {S A : Type 0} {Q : A → S → Type 0} {m : Run S A} {a : A} {s : S}
    → After Q m
    → m ≡ ok a s
    → Q a s
after_ok {Q = Q} (returns {a} {s} h) e = subst₂ Q (cc e) (cc e) h

pub after_if :
    {S A : Type 0} {Q : A → S → Type 0} (c c' : Cmd S A) {s : S} (b : Bool)
    → After Q (c s)
    → After Q (c' s)
    → After Q ((if b then c else c') s)
after_if c c' true h h' = h
after_if c c' false h h' = h'

pub Run-cases : {S A : Type 0} (r : Run S A) → (r ≡ fault) ⊎ ((a : A) × (s : S) × (r ≡ ok a s))
Run-cases fault = inl refl
Run-cases (ok a s) = inr (a, s, refl)

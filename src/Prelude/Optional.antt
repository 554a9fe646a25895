-- ===== src/Prelude/Optional.antt =====
-- Python's tests on values that may be None.
use Prim.Native.String.{String}
use mathlib.Core.Path.{◌≡◌, refl, ap}
use mathlib.Core.Logic.{◌≢◌, ◌⊎◌, inl, inr}
use mathlib.Core.Bool.{Bool, true, false, not}
use mathlib.Core.Option.{Option, none, some}
use text.Mathlib.Text.{◌==◌}
use text.Mathlib.TextEquality.{eq_iff}
use simple_a2a_registry.Prelude.Tests.{some_inj, Text-cases, text_eq_self}

-- `bool(s)`: None and the empty text are false.
abbrev pub truthy : Option String → Bool
truthy none = false
truthy (some s) = not (s == "")

-- `a == b` on texts that may be None; only None equals None.
abbrev pub text_opt_eq : Option String → Option String → Bool
text_opt_eq none none = true
text_opt_eq none (some t) = false
text_opt_eq (some s) none = false
text_opt_eq (some s) (some t) = s == t

pub text_opt_eq→≡ : (a b : Option String) → text_opt_eq a b ≡ true → a ≡ b
text_opt_eq→≡ none none h = refl
text_opt_eq→≡ none (some b) h = cc
text_opt_eq→≡ (some a) none h = cc
text_opt_eq→≡ (some a) (some b) h = ap some ((eq_iff a b).0 h)

pub text_opt_eq_self : (a : Option String) → text_opt_eq a a ≡ true
text_opt_eq_self none = refl
text_opt_eq_self (some a) = text_eq_self a

-- A text that is None or empty, or one that is neither, with the test that says so.
pub truthy-cases :
    (o : Option String)
    → ((truthy o ≡ true) × (o ≢ none) × (o ≢ some ""))
      ⊎ ((truthy o ≡ false) × ((o ≡ none) ⊎ (o ≡ some "")))
truthy-cases none = inr (refl, inl refl)
truthy-cases (some s) = elim (Text-cases s "") [
  | inl (p, e) ↦ inr (rw e refl, inr (ap some p))
  | inr (p, e) ↦ inl (rw e refl, λ h. cc, λ h. p (some_inj h))
]

-- `bool(t)` for an optional value that is true whenever it is there.
abbrev pub is_some {ℓ} : {A : Type ℓ} → Option A → Bool
is_some none = false
is_some (some a) = true

abbrev pub or_else {ℓ} : {A : Type ℓ} → Option A → A → A
or_else none d = d
or_else (some a) d = a

-- ===== src/Prelude/Stateful.antt =====
-- Fallible code with a state: an error leaves the state that it was met in.
use para_egox.Prelude.Outcome.{Result, ok, err}

module _ {ℓ κ} {S : Type ℓ} {E : Type κ} where
  abbrev pub and_then {μ ν} :
      {A : Type μ} {B : Type ν} → Result E A × S → (A → S → Result E B × S) → Result E B × S
  and_then (ok a, state) k = k a state
  and_then (err e, state) k = (err e, state)

  infixl 5 ◌>>=◌ ◌>>◌
  abbrev pub ◌>>=◌ {μ ν} :
      {A : Type μ} {B : Type ν}
      → (S → Result E A × S)
      → (A → S → Result E B × S)
      → S
      → Result E B × S
  (m >>= k) state = and_then (m state) k

  abbrev pub ◌>>◌ {μ ν} :
      {A : Type μ} {B : Type ν} → (S → Result E A × S) → (S → Result E B × S) → S → Result E B × S
  m >> k = m >>= λ _. k

  abbrev pub return {μ} : {A : Type μ} → A → S → Result E A × S
  return a state = (ok a, state)

  abbrev pub fail {μ} : {A : Type μ} → E → S → Result E A × S
  fail e state = (err e, state)

-- ===== src/Fabric/Acceptance.antt =====
-- Which services `FabricService::new_with_bindings` of crates/paraegox-fabric/src/service.rs builds.
use para_egox.Prelude.{
  ℕ, ◌+◌, ◌-◌, ◌*◌, ◌^◌, ◌≤◌, ◌<◌, ◌≡◌, ◌⊎◌, inl, inr, ◌↔◌, ◌==◌, refl, sym, ◌∙◌, ap, Bool, true,
  false, Option, none, some, List, [], ◌∷◌, ◌++◌, arith, ok, all, any, elem, length, Distinct, All,
  Fresh, Fresh-Distinct, Distinct-Fresh, none_seen, list_eq, nat_eq, Bool-cases, Option-cases,
  subst,
}
use native.Mathlib.Nat.{pow-succ'}
use para_egox.Text.{Text, text}
use para_egox.Fabric.{
  is_digit, digits_value, parse_digits, parse_u16, nonzero, strip_prefix,
  validate_loopback_endpoint, validate_connect, validate_exact_binding_key, check_bindings,
  new_with_bindings,
}

-- The decimal value of a row of digits, each digit with its weight.
unfoldable pub decimal : Text → ℕ
decimal [] = 0
decimal (c ∷ t) = (c - 48) * 10 ^ length t + decimal t

-- Digits of a value from 1 to 65,535.
pub record IsNumber (digits : Text) : Type 0 where
  pub nonempty : 0 < length digits
  pub each : All (λ c. (48 ≤ c) × (c ≤ 57)) digits
  pub nonzero : 0 < decimal digits
  pub fits : decimal digits ≤ 65535

-- A port as Rust reads it: the digits may have a `+` before them.
abbrev pub IsPort : Text → Type 0
IsPort port = (digits : Text) × ((port ≡ digits) ⊎ (port ≡ text "+" ++ digits)) × IsNumber digits

abbrev pub IsLoopback : Text → Type 0
IsLoopback endpoint = (port : Text) × (endpoint ≡ text "tcp/127.0.0.1:" ++ port) × IsPort port

abbrev pub IsConnect : Option Text → Type 0
IsConnect none = Unit {0}
IsConnect (some endpoint) = IsLoopback endpoint

-- A key without a wildcard, that Zenoh takes for a key expression.
pub record IsExact (key_expr_valid : Text → Bool) (key : Text) : Type 0 where
  pub nonempty : 0 < length key
  pub valid : key_expr_valid key ≡ true
  pub plain : elem 42 key ≡ false

pub record IsBuilt (key_expr_valid : Text → Bool) (listen : Text) (connect : Option Text)
    (keys : List Text) : Type 0 where
  pub listens_here : IsLoopback listen
  pub connects_here : IsConnect connect
  pub nonempty : 0 < length keys
  pub few : length keys ≤ 8
  pub exact : All (IsExact key_expr_valid) keys
  pub distinct : Distinct keys

next_digit : (n d w e : ℕ) → (10 * n + d) * w + e ≡ n * (10 * w) + (d * w + e)
next_digit n d w e = omega arith

digits_value_lem : (n : ℕ) (t : Text) → digits_value n t ≡ n * 10 ^ length t + decimal t
unfolding decimal
digits_value_lem n [] = omega arith
digits_value_lem n (c ∷ t) =
    digits_value_lem (10 * n + (c - 48)) t
    ∙ next_digit n (c - 48) (10 ^ length t) (decimal t)
    ∙ ap (λ w. n * w + decimal (c ∷ t)) (sym (pow-succ' 10 (length t)))

all_digits_iff : (t : Text) → (all is_digit t ≡ true) ↔ All (λ c. (48 ≤ c) × (c ≤ 57)) t
all_digits_iff [] = (λ h. tt, λ h. refl)
all_digits_iff (c ∷ t) = (
  λ h. (ground arith, (all_digits_iff t).0 (ground arith)),
  λ h. ground (arith, (all_digits_iff t).1 h.1, h.0),
)

strip_prefix_iff : (p t rest : Text) → (strip_prefix p t ≡ some rest) ↔ (t ≡ p ++ rest)
strip_prefix_iff [] t rest = (λ h. ground arith, λ h. ap some h)
strip_prefix_iff (c ∷ p) [] rest = (λ h. absurd (ground arith), λ h. absurd (ground arith))
strip_prefix_iff (c ∷ p) (d ∷ t) rest = (
  λ h. ground (arith, (strip_prefix_iff p t rest).0),
  λ h. ground (arith, (strip_prefix_iff p t rest).1),
)

parse_digits_iff : (t : Text) → (nonzero (parse_digits t) ≡ true) ↔ IsNumber t
parse_digits_iff [] = (λ h. absurd (ground arith), λ v. absurd (omega (arith, v.nonempty)))
parse_digits_iff (c ∷ t) = (
  λ h. record {
    nonempty = omega arith;
    each = (all_digits_iff (c ∷ t)).0 (ground arith);
    nonzero = ground (arith, digits_value_lem 0 (c ∷ t));
    fits = ground (arith, digits_value_lem 0 (c ∷ t));
  },
  λ v.
      ground
        (arith, (all_digits_iff (c ∷ t)).1 v.each, v.nonzero, v.fits, digits_value_lem 0 (c ∷ t)),
)

plus_digit : (t : Text) → IsNumber (43 ∷ t) → ⊥
plus_digit t v = omega (arith, v.each.0.0)

parse_u16_iff : (t : Text) → (nonzero (parse_u16 t) ≡ true) ↔ IsPort t
unfolding parse_u16
parse_u16_iff [] = (
  λ h. absurd (ground arith),
  λ (digits, written, v). elim written [
    | inl e ↦ absurd (omega (arith, v.nonempty, ap (λ (t : Text). length t) e))
    | inr e ↦ absurd (omega (arith, ap (λ (t : Text). length t) e))
  ],
)
parse_u16_iff (c ∷ t) = elim (Bool-cases (c == 43)) [
  | inl plus ↦
      let is_plus : c ≡ 43 = ground arith in
      (
        λ h. (t, inr (ap (λ d. d ∷ t) is_plus), (parse_digits_iff t).0 (ground arith)),
        λ (digits, written, v). elim written [
          | inl e ↦ absurd (plus_digit t (subst IsNumber (sym e ∙ ap (λ d. d ∷ t) is_plus) v))
          | inr e ↦ rw (plus, parse_u16) ((parse_digits_iff t).1 (subst IsNumber (ground arith) v))
        ],
      )
  | inr digit ↦ (
    λ h. (c ∷ t, inl refl, (parse_digits_iff (c ∷ t)).0 (ground arith)),
    λ (digits, written, v). elim written [
      | inl e ↦ rw (digit, parse_u16) ((parse_digits_iff (c ∷ t)).1 (subst IsNumber (sym e) v))
      | inr e ↦ absurd (ground arith)
    ],
  )
]

-- An endpoint passes exactly when it is 127.0.0.1 over TCP with such a port.
pub validate_loopback_endpoint_iff :
    (endpoint : Text) → (validate_loopback_endpoint endpoint ≡ ok tt) ↔ IsLoopback endpoint
unfolding validate_loopback_endpoint
validate_loopback_endpoint_iff endpoint =
    let prefix = text "tcp/127.0.0.1:" in
    (
      λ h. elim (Option-cases (strip_prefix prefix endpoint)) [
        | inl other ↦ absurd (ground arith)
        | inr (port, e) ↦ (
          port,
          (strip_prefix_iff prefix endpoint port).0 e,
          (parse_u16_iff port).0 (ground arith),
        )
      ],
      λ (port, e, v).
          ground (arith, (strip_prefix_iff prefix endpoint port).1 e, (parse_u16_iff port).1 v),
    )

pub validate_connect_iff :
    (connect : Option Text) → (validate_connect connect ≡ ok tt) ↔ IsConnect connect
validate_connect_iff none = (λ h. tt, λ h. refl)
validate_connect_iff (some endpoint) = validate_loopback_endpoint_iff endpoint

any_star : (t : Text) → any (λ c. c == 42) t ≡ elem 42 t
unfolding elem
any_star [] = refl
any_star (c ∷ t) = ground (arith, any_star t)

module _ (key_expr_valid : Text → Bool) where
  -- A key passes exactly when it is exact.
  pub validate_exact_binding_key_iff :
      (key : Text)
      → (validate_exact_binding_key key_expr_valid key ≡ ok tt) ↔ IsExact key_expr_valid key
  unfolding validate_exact_binding_key
  validate_exact_binding_key_iff [] =
      (λ h. absurd (ground arith), λ v. absurd (omega (arith, v.nonempty)))
  validate_exact_binding_key_iff (c ∷ t) = (
    λ h. record {
      nonempty = omega arith;
      valid = ground arith;
      plain = ground (arith, any_star (c ∷ t));
    },
    λ v. ground (arith, v.valid, v.plain, any_star (c ∷ t)),
  )

  bindings_checked :
      (seen keys : List Text)
      → check_bindings key_expr_valid seen keys ≡ ok tt
      → All (IsExact key_expr_valid) keys × Fresh seen keys
  unfolding check_bindings
  bindings_checked seen [] h = (tt, tt)
  bindings_checked seen (key ∷ keys) h =
      let (exact, fresh) = bindings_checked (key ∷ seen) keys (ground arith) in
      (((validate_exact_binding_key_iff key).0 (ground arith), exact), (ground arith, fresh))

  checks_bindings :
      (seen keys : List Text)
      → All (IsExact key_expr_valid) keys
      → Fresh seen keys
      → check_bindings key_expr_valid seen keys ≡ ok tt
  unfolding check_bindings
  checks_bindings seen [] exact fresh = refl
  checks_bindings seen (key ∷ keys) exact fresh = ground (
    arith,
    checks_bindings (key ∷ seen) keys exact.1 fresh.1,
    (validate_exact_binding_key_iff key).1 exact.0,
    fresh.0,
  )

  -- A service is built exactly when it listens on 127.0.0.1 over TCP, at a port from 1 to 65,535, the
  -- endpoint to connect to, if there is one, is of that form too, and it has 1 to 8 bindings: no key twice, none empty or with a `*`, and
  -- each a key expression that Zenoh takes.
  pub new_with_bindings_iff :
      (listen : Text) (connect : Option Text) (keys : List Text)
      → (new_with_bindings key_expr_valid listen connect keys ≡ ok tt)
        ↔ IsBuilt key_expr_valid listen connect keys
  unfolding new_with_bindings
  new_with_bindings_iff listen connect keys = (
    λ h.
        let (exact, fresh) = bindings_checked [] keys (ground arith) in
        record {
          listens_here = (validate_loopback_endpoint_iff listen).0 (ground arith);
          connects_here = (validate_connect_iff connect).0 (ground arith);
          nonempty = ground arith;
          few = ground arith;
          exact = exact;
          distinct = (Fresh-Distinct [] keys fresh).0;
        },
    λ v. ground (
      arith,
      (validate_loopback_endpoint_iff listen).1 v.listens_here,
      (validate_connect_iff connect).1 v.connects_here,
      checks_bindings [] keys v.exact (Distinct-Fresh [] keys v.distinct (none_seen keys)),
    ),
  )

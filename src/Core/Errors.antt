-- ===== src/Core/Errors.antt =====
-- include/hl/core/Types.h and include/hl/core/Result.h: errors and results.
use hyperliquid_cpp.Base.{ℕ, List, ◌≡◌, ap}

pub data ErrorKind : Type 0 where
  no_error transport timeout http venue parse_error rejected : ErrorKind

pub record Error : Type 0 where
  pub kind : ErrorKind
  pub http_status : ℕ
  pub message : List ℕ

pub data Result {ℓ} (A : Type ℓ) : Type ℓ where
  success : A → Result A
  failure : Error → Result A

result_value {ℓ} : {A : Type ℓ} → A → Result A → A
result_value other (success a) = a
result_value other (failure e) = other

pub success-injective {ℓ} : {A : Type ℓ} {a b : A} → success a ≡ success b → a ≡ b
unfolding result_value
success-injective {a = a} e = ap (result_value a) e

pub failure-ne-success {ℓ} :
    {A : Type ℓ} {e : Error} {a : A} → ¬ (◌≡◌ {A = Result A} (failure e) (success a))
failure-ne-success h = cc

-- What holds of both cases holds of a case on a result.
pub result_cases {ℓ ℓ' κ} :
    {A : Type ℓ} {B : Type κ} (P : B → Type ℓ') (r : Result A) {f : Error → B} {g : A → B}
    → ((e : Error) → P (f e))
    → ((a : A) → P (g a))
    → P (elim r [ failure e ↦ f e | success a ↦ g a ])
result_cases P (success a) p q = q a
result_cases P (failure e) p q = p e

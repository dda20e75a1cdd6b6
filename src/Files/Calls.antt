-- ===== src/Files/Calls.antt =====
-- A row of calls either answers throughout, or has a first that fails.
use version_aware_code_mcp.Prelude.{List, [], ◌∷◌, ◌≡◌, ◌⊎◌, inl, inr, refl, All}
use version_aware_code_mcp.Vacerr
use version_aware_code_mcp.Vacerr.{Failure}
use version_aware_code_mcp.Effect.{Result, ok, err}
use version_aware_code_mcp.Files.{run_calls}

abbrev pub AllAnswer : List (Result (Unit {0})) → Type 0
AllAnswer calls = All (λ r. r ≡ ok tt) calls

-- The first call that fails does so with `f`.
pub data FirstFails (f : Failure) : List (Result (Unit {0})) → Type 0 where
  here : {rest : List (Result (Unit {0}))} → FirstFails f (err f ∷ rest)
  later : {rest : List (Result (Unit {0}))} → FirstFails f rest → FirstFails f (ok tt ∷ rest)

pub run_calls-cases :
    (calls : List (Result (Unit {0})))
    → ((run_calls calls ≡ ok tt) × AllAnswer calls)
      ⊎ ((f : Failure) × (run_calls calls ≡ err (Vacerr.wrapped f)) × FirstFails f calls)
unfolding run_calls
run_calls-cases [] = inl (refl, tt)
run_calls-cases (err f ∷ rest) = inr (f, refl, FirstFails.here)
run_calls-cases (ok tt ∷ rest) = elim (run_calls-cases rest) [
  | inl (e, answer) ↦ inl (e, (refl, answer))
  | inr (f, e, fails) ↦ inr (f, e, FirstFails.later fails)
]

pub FirstFails-AllAnswer :
    {f : Failure} {calls : List (Result (Unit {0}))} → FirstFails f calls → AllAnswer calls → ⊥
FirstFails-AllAnswer FirstFails.here (e, rest) = cc
FirstFails-AllAnswer (FirstFails.later fails) (e, rest) = FirstFails-AllAnswer fails rest

-- ===== src/Engine/Asked.antt =====
-- Runs of one query over several members: who was asked, in which order, and what came back.
use version_aware_code_mcp.Prelude.{List, [], ◌∷◌, ◌≡◌}
use version_aware_code_mcp.Vacerr.{Failure}
use version_aware_code_mcp.Vacctx.{CodeContext}
use version_aware_code_mcp.Effect.{ok, err, Effect}

module _ {W A : Type 0} (ask : CodeContext → Effect W A) where
  -- Every member was asked once, in order, and answered: from one state of the world to another.
  pub data Asked : List CodeContext → W → List A → W → Type 0 where
    done : {w : W} → Asked [] w [] w
    next :
        {m : CodeContext} {ms : List CodeContext} {w v u : W} {a : A} {as_ : List A}
        → ask m w ≡ (ok a, v)
        → Asked ms v as_ u
        → Asked (m ∷ ms) w (a ∷ as_) u

  -- Some members answered, the next one failed, and no later one was asked.
  pub data Stopped : List CodeContext → W → Failure → W → Type 0 where
    stop :
        {m : CodeContext} {ms : List CodeContext} {w v : W} {f : Failure}
        → ask m w ≡ (err f, v)
        → Stopped (m ∷ ms) w f v
    later :
        {m : CodeContext} {ms : List CodeContext} {w v u : W} {a : A} {f : Failure}
        → ask m w ≡ (ok a, v)
        → Stopped ms v f u
        → Stopped (m ∷ ms) w f u

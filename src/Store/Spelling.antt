-- ===== src/Store/Spelling.antt =====
-- Writing a context down and reading it back.
use version_aware_code_mcp.Prelude.{ℕ, Text, List, [], ◌∷◌, ◌≡◌, ◌≢◌, ◌↔◌, refl, text_eq}
use version_aware_code_mcp.Effect.{ok}
use version_aware_code_mcp.Store.{ContextMember, Context, marshal, unmarshal}

unmarshal-marshal_parts :
    (id state : Text) (now : ℕ) (ms : List ContextMember)
    → let c : Context = record { id = id; members = ms; state = state; updated_at = now } in
      (unmarshal (marshal c) ≡ ok c) ↔ (ms ≢ [])
unfolding unmarshal marshal text_eq
unmarshal-marshal_parts id state now [] = (λ h. absurd (cc), λ n. absurd (n refl))
unmarshal-marshal_parts id state now (m ∷ []) = (λ h e. cc, λ n. refl)
unmarshal-marshal_parts id state now (m ∷ k ∷ ms) = (λ h e. cc, λ n. refl)

-- What is written down reads back as the same context, exactly if it has a member; this is so for
-- both spellings, the one of a single repository and the one of several.
pub unmarshal-marshal : (c : Context) → (unmarshal (marshal c) ≡ ok c) ↔ (c.members ≢ [])
unmarshal-marshal c = unmarshal-marshal_parts c.id c.state c.updated_at c.members

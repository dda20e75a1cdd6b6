-- ===== src/Managed/Serving.antt =====
-- What may be served, and which moves a context that has stopped still has.
use version_aware_code_mcp.Prelude.{
  ℕ, Text, [], true, false, ◌≡◌, ◌≢◌, ◌⊎◌, ◌↔◌, inl, inr, arith, text_eq, text_eq_iff,
  if◌then◌else◌,
}
use version_aware_code_mcp.Effect.{ok, err}
use version_aware_code_mcp.Store.{Context, unknown_context}
use version_aware_code_mcp.Managed.{
  Built, advances, ready_context, context_ready, context_failed, context_removing,
}

-- A state that no build leaves any more.
abbrev pub IsStopped : Text → Type 0
IsStopped s = (s ≡ context_ready) ⊎ (s ≡ context_failed) ⊎ (s ≡ context_removing)

only_removing :
    (to : Text)
    → ((if text_eq to context_removing then true else false) ≡ true) ↔ (to ≡ context_removing)
only_removing to = ground (arith, text_eq_iff to context_removing)

-- A context that is READY, FAILED or REMOVING moves to REMOVING only.
pub advances-stopped :
    (from to : Text) → IsStopped from → (advances from to ≡ true) ↔ (to ≡ context_removing)
unfolding advances text_eq
advances-stopped from to stopped = elim stopped [
  | inl e ↦ rw e (only_removing to)
  | inr (inl e) ↦ rw e (only_removing to)
  | inr (inr e) ↦ rw e (only_removing to)
]

-- What the query plane is given of a context after its build.
abbrev pub Served : {W : Type 0} → ℕ → Context → Built W → Type 0
Served now c b =
    ((b.errors ≡ [])
      × (ready_context c.id b.disk ≡ ok (record c { state = context_ready; updated_at = now })))
    ⊎ ((b.errors ≢ []) × (ready_context c.id b.disk ≡ err (unknown_context c.id)))

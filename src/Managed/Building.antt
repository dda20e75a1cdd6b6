-- ===== src/Managed/Building.antt =====
-- A build reaches READY only past every stage, and the record says where it ended.
use version_aware_code_mcp.Prelude.{
  ℕ, Text, List, [], ◌∷◌, true, ◌≡◌, ◌⊎◌, inl, inr, refl, codes, text_eq,
}
use version_aware_code_mcp.Vacerr.{Failure}
use version_aware_code_mcp.Effect.{Result, ok, err, Effect}
use version_aware_code_mcp.Store
use version_aware_code_mcp.Store.{
  Context, Disk, marshal, validate_name, check_members, remove_record, and_then, put_context,
}
use version_aware_code_mcp.Store.Records.{written-IsFiled, and_then-ok, check_members-some}
use version_aware_code_mcp.Managed.{
  Stage, Stages, Built, in_state, advances, advance, fail_with, run_stages, stages_of,
  build_context, context_resolving, context_ready, context_failed,
}

-- The context may be written down: its names are usable, and it has a member.
abbrev pub IsFileable : Context → Type 0
IsFileable c =
    and_then (validate_name (codes "context") c.id) (check_members c.id c.members) ≡ ok tt

-- The records once the context has been written down in a state.
abbrev pub filed_in : ℕ → Text → Context → Disk → Disk
filed_in now s c disk =
    (c.id, marshal (record c { state = s; updated_at = now })) ∷ remove_record c.id disk

pub advance-files :
    (now : ℕ) (s : Text) (c : Context) (disk : Disk)
    → IsFileable c
    → advances c.state s ≡ true
    → advance now s c disk ≡ (ok tt, (in_state s c, filed_in now s c disk))
unfolding advance put_context
advance-files now s c disk f a = rw (a, f) refl

pub filed_reads :
    (now : ℕ) (s : Text) (c : Context) (disk : Disk)
    → IsFileable c
    → Store.context c.id (filed_in now s c disk) ≡ ok (record c { state = s; updated_at = now })
filed_reads now s c disk f =
    let (valid, checked) = and_then-ok _ _ f in
    (written-IsFiled now (in_state s c) disk valid
      (check_members-some c.id c.members checked)).reads

run-cases :
    {W : Type 0} (r : Result (Unit {0}) × W)
    → ((v : W) × (r ≡ (ok tt, v))) ⊎ ((f : Failure) × (v : W) × (r ≡ (err f, v)))
run-cases (ok _, v) = inl (v, refl)
run-cases (err f, v) = inr (f, v, refl)

module _ {W : Type 0} (now : ℕ) where
  -- How the stages went: each ran with the context in its state, written down before; the first
  -- that failed was the last that ran.
  pub data Ran : List (Stage W) → Context → Disk → W → List Failure → Text → W → Type 0 where
    all_ran : {c : Context} {disk : Disk} {w : W} → Ran [] c disk w [] context_ready w
    failed :
        {t : Text} {run : Context → Disk → Effect W (Unit {0})} {rest : List (Stage W)}
        {c : Context} {disk : Disk} {w v : W} {f : Failure}
        → run (in_state t c) (filed_in now t c disk) w ≡ (err f, v)
        → Ran ((t, run) ∷ rest) c disk w (f ∷ []) context_failed v
    ran :
        {t : Text} {run : Context → Disk → Effect W (Unit {0})} {rest : List (Stage W)}
        {c : Context} {disk : Disk} {w v u : W} {errors : List Failure} {s : Text}
        → run (in_state t c) (filed_in now t c disk) w ≡ (ok tt, v)
        → Ran rest (in_state t c) (filed_in now t c disk) v errors s u
        → Ran ((t, run) ∷ rest) c disk w errors s u

  -- Every move that the stages make is one that the lifecycle has.
  abbrev pub Chain : Text → List (Stage W) → Type 0
  Chain s [] = advances s context_ready ≡ true
  Chain s ((t, run) ∷ rest) =
      (advances s t ≡ true) × (advances t context_failed ≡ true) × Chain t rest

  -- Where a build ended: the context, and its record, are in the state that the stages led to.
  pub record IsBuilt (stages : List (Stage W)) (c : Context) (disk : Disk) (w : W) (b : Built W)
      : Type 0 where
    pub state : Text
    pub stages_ran : Ran stages c disk w b.errors state b.world
    pub kept : b.context ≡ in_state state c
    pub reads : Store.context c.id b.disk ≡ ok (record c { state = state; updated_at = now })

  run_stages-IsBuilt :
      (stages : List (Stage W)) (c : Context) (disk : Disk) (w : W)
      → Chain c.state stages
      → IsFileable c
      → IsBuilt stages c disk w (run_stages now stages c disk w)
  unfolding run_stages
  run_stages-IsBuilt [] c disk w chain f =
      rw (advance-files now context_ready c disk f chain) (record {
        state = context_ready;
        stages_ran = all_ran;
        kept = refl;
        reads = filed_reads now context_ready c disk f;
      })
  run_stages-IsBuilt ((t, run) ∷ rest) c disk w chain f =
      rw (advance-files now t c disk f chain.0)
        elim (run-cases (run (in_state t c) (filed_in now t c disk) w)) [
          | inl (v, e) ↦
              let b = run_stages-IsBuilt rest (in_state t c) (filed_in now t c disk) v chain.2 f in
              rw e (record {
                state = b.state;
                stages_ran = ran e b.stages_ran;
                kept = b.kept;
                reads = b.reads;
              })
          | inr (x, v, e) ↦
              rw
                (
                  e,
                  fail_with,
                  advance-files now context_failed (in_state t c) (filed_in now t c disk) f chain.1,
                )
                (record {
                  state = context_failed;
                  stages_ran = failed e;
                  kept = refl;
                  reads = filed_reads now context_failed (in_state t c) (filed_in now t c disk) f;
                })
        ]

  pub build_context-IsBuilt :
      (stages : Stages W) (c : Context) (disk : Disk) (w : W)
      → c.state ≡ context_resolving
      → IsFileable c
      → IsBuilt (stages_of stages) c disk w (build_context now stages c disk w)
  unfolding build_context advances text_eq
  build_context-IsBuilt stages c disk w resolving f =
      run_stages-IsBuilt (stages_of stages) c disk w
        (rw resolving refl, refl, (refl, refl, (refl, refl, (refl, refl, refl)))) f

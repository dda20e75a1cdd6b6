-- ===== src/Store/Records.antt =====
-- The records as a map from ids to contexts.
use version_aware_code_mcp.Prelude.{
  ℕ, Text, List, [], ◌∷◌, none, false, ◌≡◌, ◌≢◌, ◌⊎◌, inl, inr, refl, sym, ap, subst, ◌∙◌, text_eq,
  text_eq_iff, text_eq_refl, Bool-cases, codes,
}
use version_aware_code_mcp.Vacerr
use version_aware_code_mcp.Vacerr.{Failure}
use version_aware_code_mcp.Effect.{Result, ok, err}
use version_aware_code_mcp.Files.{Answers, replacing, flushing, atomic_write, after_rename, working}
use version_aware_code_mcp.Files.Calls.{
  FirstFails, AllAnswer, run_calls-cases, FirstFails-AllAnswer,
}
use version_aware_code_mcp.Config.{lookup}
use version_aware_code_mcp.Store.{
  Context, ContextMember, Disk, marshal, validate_name, check_members, remove_record, and_then,
  written, checked, put_context, context, decoded, as_valid_record,
}
use version_aware_code_mcp.Store.Spelling.{unmarshal-marshal}

text_neq : (s t : Text) → s ≢ t → text_eq s t ≡ false
text_neq s t n = elim (Bool-cases (text_eq s t)) [
  | inl e ↦ absurd (n ((text_eq_iff s t).0 e))
  | inr e ↦ e
]

pub lookup-remove_other :
    (key name : Text) (disk : Disk)
    → key ≢ name
    → lookup key (remove_record name disk) ≡ lookup key disk
unfolding lookup remove_record
lookup-remove_other key name [] n = refl
lookup-remove_other key name ((k, r) ∷ rest) n = elim (Bool-cases (text_eq k name)) [
  | inl e ↦
      let m : text_eq k key ≡ false = text_neq k key (λ q. n (sym q ∙ (text_eq_iff k name).0 e)) in
      rw (e, m) (lookup-remove_other key name rest n)
  | inr e ↦ elim (Bool-cases (text_eq k key)) [
    | inl q ↦ rw (e, q) refl
    | inr q ↦ rw (e, q) (lookup-remove_other key name rest n)
  ]
]

pub lookup-remove_same : (name : Text) (disk : Disk) → lookup name (remove_record name disk) ≡ none
unfolding lookup remove_record
lookup-remove_same name [] = refl
lookup-remove_same name ((k, r) ∷ rest) = elim (Bool-cases (text_eq k name)) [
  | inl e ↦ rw e (lookup-remove_same name rest)
  | inr e ↦ rw (e, e) (lookup-remove_same name rest)
]

-- What writing a context does: it reads back as it was put, with its new time, and every other id
-- reads as before.
pub record IsFiled (now : ℕ) (c : Context) (before after : Disk) : Type 0 where
  pub reads : context c.id after ≡ ok (record c { updated_at = now })
  pub others : (id : Text) → id ≢ c.id → context id after ≡ context id before

-- How writing a context comes out, on a disk that answers with `os`.
pub data Outcome (os : Answers) (now : ℕ) (c : Context) (before : Disk)
    : Result (Unit {0}) → Disk → Type 0 where
  refused : {f : Failure} → checked c ≡ err f → Outcome os now c before (err f) before
  unwritten :
      {f : Failure}
      → checked c ≡ ok tt
      → FirstFails f (replacing os)
      → Outcome os now c before (err (Vacerr.wrapped f)) before
  unflushed :
      {f : Failure} {after : Disk}
      → checked c ≡ ok tt
      → AllAnswer (replacing os)
      → FirstFails f (flushing os)
      → IsFiled now c before after
      → Outcome os now c before (err (Vacerr.wrapped f)) after
  filed :
      {after : Disk}
      → checked c ≡ ok tt
      → AllAnswer (replacing os)
      → AllAnswer (flushing os)
      → IsFiled now c before after
      → Outcome os now c before (ok tt) after

pub and_then-ok : (a b : Result (Unit {0})) → and_then a b ≡ ok tt → (a ≡ ok tt) × (b ≡ ok tt)
and_then-ok (ok u) b h = (refl, h)
and_then-ok (err f) b h = absurd (cc)

pub check_members-some :
    (id : Text) (ms : List ContextMember) → check_members id ms ≡ ok tt → ms ≢ []
unfolding check_members
check_members-some id [] h = absurd (cc)
check_members-some id (m ∷ ms) h = λ e. cc

pub written-IsFiled :
    (now : ℕ) (c : Context) (disk : Disk)
    → validate_name (codes "context") c.id ≡ ok tt
    → c.members ≢ []
    → IsFiled now c disk ((c.id, marshal (record c { updated_at = now })) ∷ remove_record c.id disk)
unfolding context lookup
written-IsFiled now c disk valid n = record {
  reads =
      rw (valid, text_eq_refl c.id)
        (ap as_valid_record ((unmarshal-marshal (record c { updated_at = now })).1 n));
  others = λ id other.
      let m : text_eq c.id id ≡ false = text_neq c.id id (λ e. other (sym e)) in
      rw m (
        ap (λ x. and_then (validate_name (codes "context") id) (decoded id x))
          (lookup-remove_other id c.id disk other));
}

-- Writing a context comes out in one of four ways: it is refused, and the disk is as it was; or a
-- call up to the rename is the first that fails, and the disk is as it was; or the directory cannot
-- be flushed after the rename, which is an error although the context is filed; or every call
-- succeeds, and the context is filed. A context that is filed reads back as it was put, at the new
-- time, and every other id reads as before.
pub put_context-IsFiled :
    (os : Answers) (now : ℕ) (c : Context) (disk after : Disk) (r : Result (Unit {0}))
    → put_context os now c disk ≡ (r, after)
    → Outcome os now c disk r after
unfolding put_context atomic_write
put_context-IsFiled os now c disk after r h = go (checked c) refl h
  where
    go :
        (s : Result (Unit {0}))
        → checked c ≡ s
        → written os s c.id (marshal (record c { updated_at = now })) disk ≡ (r, after)
        → Outcome os now c disk r after
    go (err f) e k = subst (λ o. Outcome os now c disk o.0 o.1) k (Outcome.refused e)
    go (ok _) e k =
        let (valid, members) = and_then-ok _ _ e in
        let done = written-IsFiled now c disk valid (check_members-some c.id c.members members) in
        subst (λ o. Outcome os now c disk o.0 o.1) k
          (elim (run_calls-cases (replacing os)) [
            | inr (f, q, fails) ↦ rw (q, after_rename) (Outcome.unwritten e fails)
            | inl (q, answer) ↦ elim (run_calls-cases (flushing os)) [
              | inr (f, q', fails) ↦
                  rw (q, q', after_rename) (Outcome.unflushed e answer fails done)
              | inl (q', answer') ↦ rw (q, q', after_rename) (Outcome.filed e answer answer' done)
            ]
          ])

-- On a disk that works, a context is refused, or filed.
pub put_context-working :
    (now : ℕ) (c : Context) (disk after : Disk) (r : Result (Unit {0}))
    → put_context working now c disk ≡ (r, after)
    → ((f : Failure) × (r ≡ err f) × (after ≡ disk)) ⊎ ((r ≡ ok tt) × IsFiled now c disk after)
put_context-working now c disk after r h =
    go r after (put_context-IsFiled working now c disk after r h)
  where
    go :
        (x : Result (Unit {0})) (d : Disk)
        → Outcome working now c disk x d
        → ((f : Failure) × (x ≡ err f) × (d ≡ disk)) ⊎ ((x ≡ ok tt) × IsFiled now c disk d)
    go x d (Outcome.refused {f = f} e) = inl (f, refl, refl)
    go x d (Outcome.unwritten e fails) =
        absurd (FirstFails-AllAnswer fails (refl, (refl, (refl, (refl, (refl, tt))))))
    go x d (Outcome.unflushed e a fails done) =
        absurd (FirstFails-AllAnswer fails (refl, (refl, tt)))
    go x d (Outcome.filed e a b done) = inr (refl, done)

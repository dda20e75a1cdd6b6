-- ===== src/Files.antt =====
-- atomicWrite and syncDir of store/store.go: a file is replaced by a rename, and each step on the way
-- may fail. What the operating system answers to a step is a parameter; the temporary file is no
-- record, and is left out.
pub mod Calls
use version_aware_code_mcp.Prelude.{List, [], ◌∷◌}
use version_aware_code_mcp.Vacerr
use version_aware_code_mcp.Vacerr.{Failure}
use version_aware_code_mcp.Effect.{Result, ok, err}

-- What the calls of one write answer.
pub record Answers : Type 0 where
  pub create_temp : Result (Unit {0})
  pub write : Result (Unit {0})
  pub sync : Result (Unit {0})
  pub close : Result (Unit {0})
  pub rename : Result (Unit {0})
  pub open_dir : Result (Unit {0})
  pub sync_dir : Result (Unit {0})

-- Calls one after another, up to the first that fails.
unfoldable pub run_calls : List (Result (Unit {0})) → Result (Unit {0})
run_calls [] = ok tt
run_calls (ok _ ∷ rest) = run_calls rest
run_calls (err f ∷ rest) = err (Vacerr.wrapped f)

-- The calls up to the rename.
abbrev pub replacing : Answers → List (Result (Unit {0}))
replacing os = os.create_temp ∷ os.write ∷ os.sync ∷ os.close ∷ os.rename ∷ []

-- The calls of `syncDir`
abbrev pub flushing : Answers → List (Result (Unit {0}))
flushing os = os.open_dir ∷ os.sync_dir ∷ []

abbrev pub after_rename :
    {S : Type 0} → Result (Unit {0}) → Result (Unit {0}) → (S → S) → S → Result (Unit {0}) × S
after_rename (err f) flushed replace s = (err f, s)
after_rename (ok _) flushed replace s = (flushed, replace s)

-- `atomicWrite`, where `replace` is what the rename does. A directory that cannot be flushed is an
-- error, but the file has been replaced by then.
unfoldable pub atomic_write : {S : Type 0} → Answers → (S → S) → S → Result (Unit {0}) × S
unfolding run_calls
atomic_write os replace s =
    after_rename (run_calls (replacing os)) (run_calls (flushing os)) replace s

-- A disk on which every step succeeds.
abbrev pub working : Answers
working = record {
  create_temp = ok tt;
  write = ok tt;
  sync = ok tt;
  close = ok tt;
  rename = ok tt;
  open_dir = ok tt;
  sync_dir = ok tt;
}

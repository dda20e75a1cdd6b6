-- ===== src/Evidence.antt =====
-- evidence/evidence.go: citations, and the output that may not be built without its scope.
pub mod Output
use version_aware_code_mcp.Prelude.{
  Text, ℤ, List, [], ◌∷◌, Bool, true, false, ◌&&◌, ◌||◌, text_eq, text_eq_iff, eq_ℤ, eq_ℤ_iff, ◌↔◌,
  ◌≡◌, arith,
}

pub record Location : Type 0 where
  pub path : Text
  pub start_line : ℤ
  pub end_line : ℤ

pub record Evidence : Type 0 where
  pub location : Location
  pub snippet : Text

-- `evidence.At`
abbrev pub at : Text → ℤ → ℤ → Text → Evidence
at p s e t = record { location = record { path = p; start_line = s; end_line = e }; snippet = t }

-- Go's `==` on the struct, by which citations are map keys.
unfoldable pub evidence_eq : Evidence → Evidence → Bool
evidence_eq a b =
    text_eq a.location.path b.location.path
    && eq_ℤ a.location.start_line b.location.start_line
    && eq_ℤ a.location.end_line b.location.end_line
    && text_eq a.snippet b.snippet

pub evidence_eq_iff : (a b : Evidence) → (evidence_eq a b ≡ true) ↔ (a ≡ b)
unfolding evidence_eq
evidence_eq_iff a b = ground (
  arith,
  text_eq_iff a.location.path b.location.path,
  eq_ℤ_iff a.location.start_line b.location.start_line,
  eq_ℤ_iff a.location.end_line b.location.end_line,
  text_eq_iff a.snippet b.snippet,
)

-- ===== src/Engine/Source.antt =====
-- GetCode of engine/engine.go: a line range of one member's file, at the revision it was read at.
pub mod Revision
use version_aware_code_mcp.Prelude.{Text, ℤ, List, [], ◌∷◌, Option, none, some, codes}
use version_aware_code_mcp.Vacerr
use version_aware_code_mcp.Vacerr.{repository_not_found}
use version_aware_code_mcp.Vacctx.{CodeContext}
use version_aware_code_mcp.Effect.{Effect, pure, fail, lift, continue, ◌>>=◌}
use version_aware_code_mcp.Provider.{SourceProvider, SourceContent}
use version_aware_code_mcp.Evidence.{at}
use version_aware_code_mcp.Engine.{
  Engine, Answer, resolve, select_members, repository_required, single, only_member, in_one_member,
}

pub record GetCodeRequest : Type 0 where
  pub context : Text
  pub repository : Text
  pub path : Text
  pub start_line : ℤ
  pub end_line : ℤ

pub record GetCodeResult : Type 0 where
  pub answer : Answer
  pub source : SourceContent

module _ {W : Type 0} where
  unfoldable pub read_member : Engine W → GetCodeRequest → Effect W CodeContext
  read_member e req = resolve e req.context >>= λ workspace.
      lift (select_members req.context req.repository workspace) >>= λ members. lift (
        only_member
          (repository_required req.context members ((codes "path", Vacerr.text req.path) ∷ []))
          (single members))

  unfoldable pub read_with :
      Option (SourceProvider W) → GetCodeRequest → CodeContext → Effect W GetCodeResult
  read_with none req c = fail (
      Vacerr.new repository_not_found
        ((codes "context", Vacerr.text req.context) ∷ (codes "path", Vacerr.text req.path) ∷ []))
  read_with (some p) req c = p.read c req.path req.start_line req.end_line >>= λ src. pure (record {
    answer =
        in_one_member (record c { revision = src.revision })
          (at src.path src.start_line src.end_line [] ∷ []);
    source = src;
  })

  unfoldable pub get_code : Engine W → GetCodeRequest → Effect W GetCodeResult
  unfolding read_member read_with
  get_code e req = read_member e req >>= λ c. read_with e.source req c

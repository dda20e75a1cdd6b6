-- ===== src/Engine/Source/Revision.antt =====
-- A read is answered in one member, at the revision that the content came from.
use version_aware_code_mcp.Prelude.{[], ◌∷◌, Option, none, some, ◌≡◌, refl, ap}
use version_aware_code_mcp.Vacctx.{CodeContext, Workspace}
use version_aware_code_mcp.Effect.{ok, bind-eq-ok}
use version_aware_code_mcp.Evidence.{at}
use version_aware_code_mcp.Provider.{SourceProvider}
use version_aware_code_mcp.Engine.{Engine, in_one_member}
use version_aware_code_mcp.Engine.Scope.{IsScope, narrow-ok, pure-eq}
use version_aware_code_mcp.Engine.Source.{
  GetCodeRequest, GetCodeResult, read_member, read_with, get_code,
}

module _ {W : Type 0} (e : Engine W) (req : GetCodeRequest) where
  -- Where a read answers.
  pub record IsRead (w u : W) (r : GetCodeResult) : Type 0 where
    pub provider : SourceProvider W
    pub installed : e.source ≡ some provider
    pub workspace : Workspace
    pub member : CodeContext
    pub after : W
    pub scope : IsScope e req.context req.repository w after workspace (member ∷ [])
    pub was_read :
        provider.read member req.path req.start_line req.end_line after ≡ (ok r.source, u)
    pub answered :
        r.answer
        ≡ in_one_member
            (record member { revision = r.source.revision })
            (at r.source.path r.source.start_line r.source.end_line [] ∷ [])

  read_with-IsRead :
      (w v u : W) (ws : Workspace) (c : CodeContext) (r : GetCodeResult)
      → IsScope e req.context req.repository w v ws (c ∷ [])
      → (s : Option (SourceProvider W)) → e.source ≡ s
      → read_with s req c v ≡ (ok r, u)
      → IsRead w u r
  unfolding read_with
  read_with-IsRead w v u ws c r scope none i k = absurd (cc (ap (λ x. x.0) k))
  read_with-IsRead w v u ws c r scope (some p) i k =
      let (src, v', was, last) = bind-eq-ok (p.read c req.path req.start_line req.end_line) _ v k in
      pure-eq (λ x y. IsRead w y x) last
        (record {
          provider = p;
          installed = i;
          workspace = ws;
          member = c;
          after = v;
          scope = scope;
          was_read = was;
          answered = refl;
        })

  -- A read that succeeds is what the provider read for the one selected, complete member, is cited
  -- at the range that was read, and is answered in that member at the revision the bytes came
  -- from, whatever spelling the context declared.
  pub get_code-IsRead : (w u : W) (r : GetCodeResult) → get_code e req w ≡ (ok r, u) → IsRead w u r
  unfolding get_code read_member
  get_code-IsRead w u r h =
      let (c, v, narrowed, rest) = bind-eq-ok (read_member e req) _ w h in
      let (ws, scope) = narrow-ok e req.context req.repository _ w v c narrowed in
      read_with-IsRead w v u ws c r scope e.source refl rest

-- ===== src/Managed/Shards.antt =====
-- repositoryShards of managed/search.go: which files of the index directory are one repository's.
-- Its regular expression, `name_v[0-9]+\.[0-9]+\.zoekt` between anchors, is matched from left to
-- right: digits are taken greedily, and what follows them is never one.
pub mod Named
use version_aware_code_mcp.Prelude.{
  Text, List, [], ◌∷◌, ◌++◌, Option, none, some, Bool, true, false, ◌||◌, not, if◌then◌else◌, codes,
  text_eq, is_digit, after_prefix,
}

-- `fs.DirEntry`, as the code reads it
pub record DirEntry : Type 0 where
  pub name : Text
  pub is_dir : Bool

-- What `[0-9]*` leaves.
unfoldable pub behind_digits : Text → Text
behind_digits [] = []
behind_digits (c ∷ s) = let rest = behind_digits s in if is_digit c then rest else c ∷ s

-- What `[0-9]+` leaves.
unfoldable pub after_digits : Text → Option Text
unfolding behind_digits
after_digits [] = none
after_digits (c ∷ s) = if is_digit c then some (behind_digits s) else none

abbrev pub when_some : Option Text → (Text → Bool) → Bool
when_some none test = false
when_some (some rest) test = test rest

-- `shard.MatchString`
unfoldable pub is_shard : Text → Text → Bool
unfolding after_prefix after_digits text_eq
is_shard repository name = when_some (after_prefix name (repository ++ codes "_v")) (λ versioned.
    when_some (after_digits versioned) (λ dotted.
      when_some (after_prefix dotted (codes "."))
        (λ numbered. when_some (after_digits numbered) (λ rest. text_eq rest (codes ".zoekt")))))

-- The loop of `repositoryShards`
unfoldable pub shards_of : Text → Text → List DirEntry → List Text
unfolding is_shard
shards_of dir repository [] = []
shards_of dir repository (entry ∷ rest) =
    let later = shards_of dir repository rest in
    if entry.is_dir || not (is_shard repository entry.name)
    then later
    else (dir ++ (codes "/" ++ entry.name)) ∷ later

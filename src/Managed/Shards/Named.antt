-- ===== src/Managed/Shards/Named.antt =====
-- What the names of a repository's index files look like.
use version_aware_code_mcp.Prelude.{
  ◌≤◌, Text, List, [], ◌∷◌, ◌++◌, Option, none, some, Bool, true, false, ◌||◌, not, ◌≡◌, ◌≢◌, inl,
  inr, refl, ap, ◌∙◌, arith, codes, text_eq_iff, Bool-cases, In, All, is_digit, after_prefix,
}
use version_aware_code_mcp.Managed.Shards.{
  DirEntry, behind_digits, after_digits, when_some, is_shard, shards_of,
}

append-after_prefix : (s p rest : Text) → after_prefix s p ≡ some rest → s ≡ p ++ rest
unfolding after_prefix
append-after_prefix s [] rest h = ground (arith, h)
append-after_prefix [] (b ∷ p) rest h = absurd (cc)
append-after_prefix (a ∷ s) (b ∷ p) rest h = ground (arith, h, append-after_prefix s p rest)

-- One digit or more.
pub record IsNumber (s : Text) : Type 0 where
  pub some_digit : s ≢ []
  pub digits : All (λ c. (48 ≤ c) × (c ≤ 57)) s

behind_digits-All :
    (s : Text) → (ds : Text) × All (λ c. (48 ≤ c) × (c ≤ 57)) ds × (s ≡ ds ++ behind_digits s)
unfolding behind_digits
behind_digits-All [] = ([], tt, refl)
behind_digits-All (c ∷ s) = elim (Bool-cases (is_digit c)) [
  | inl e ↦
      let (ds, all, same) = behind_digits-All s in
      rw e (c ∷ ds, ((ground (arith, e), ground (arith, e)), all), ap (λ x. c ∷ x) same)
  | inr e ↦ rw e ([], tt, refl)
]

after_digits-IsNumber :
    (s rest : Text) → after_digits s ≡ some rest → (ds : Text) × IsNumber ds × (s ≡ ds ++ rest)
unfolding after_digits
after_digits-IsNumber [] rest h = absurd (cc)
after_digits-IsNumber (c ∷ s) rest h = elim (Bool-cases (is_digit c)) [
  | inl e ↦
      let (ds, all, same) = behind_digits-All s in
      let left : behind_digits s ≡ rest = ground (arith, rw e at h) in
      (
        c ∷ ds,
        record { some_digit = λ q. cc; digits = ((ground (arith, e), ground (arith, e)), all) },
        ap (λ x. c ∷ x) (same ∙ ap (λ x. ds ++ x) left),
      )
  | inr e ↦ absurd (cc (rw e at h))
]

when_some-ok :
    (o : Option Text) (test : Text → Bool)
    → when_some o test ≡ true
    → (rest : Text) × (o ≡ some rest) × (test rest ≡ true)
when_some-ok none test h = absurd (cc)
when_some-ok (some rest) test h = (rest, refl, h)

-- A name that zoekt-git-index gives to a shard of the repository.
pub record IsShardName (repository name : Text) : Type 0 where
  pub version : Text
  pub versioned : IsNumber version
  pub shard : Text
  pub numbered : IsNumber shard
  pub spelled :
      name ≡ (repository ++ codes "_v") ++ (version ++ (codes "." ++ (shard ++ codes ".zoekt")))

pub is_shard-IsShardName :
    (repository name : Text) → is_shard repository name ≡ true → IsShardName repository name
unfolding is_shard
is_shard-IsShardName repository name h =
    let (a, pa, ha) = when_some-ok (after_prefix name (repository ++ codes "_v")) _ h in
    let (b, pb, hb) = when_some-ok (after_digits a) _ ha in
    let (c, pc, hc) = when_some-ok (after_prefix b (codes ".")) _ hb in
    let (d, pd, hd) = when_some-ok (after_digits c) _ hc in
    let (version, versioned, va) = after_digits-IsNumber a b pb in
    let (shard, numbered, sc) = after_digits-IsNumber c d pd in
    let tail : c ≡ shard ++ codes ".zoekt" =
      sc ∙ ap (λ x. shard ++ x) ((text_eq_iff d (codes ".zoekt")).0 hd) in
    let dot : b ≡ codes "." ++ (shard ++ codes ".zoekt") =
      append-after_prefix b (codes ".") c pc ∙ ap (λ x. codes "." ++ x) tail in
    record {
      version = version;
      versioned = versioned;
      shard = shard;
      numbered = numbered;
      spelled =
          append-after_prefix name (repository ++ codes "_v") a pa
          ∙ ap (λ x. (repository ++ codes "_v") ++ x) (va ∙ ap (λ x. version ++ x) dot);
    }

-- A file of the index directory that is a shard of the repository.
pub record HasShard (repository : Text) (entries : List DirEntry) : Type 0 where
  pub entry : DirEntry
  pub listed : In entry entries
  pub is_file : entry.is_dir ≡ false
  pub named : IsShardName repository entry.name

pub shards_of-HasShard :
    (dir repository : Text) (entries : List DirEntry)
    → shards_of dir repository entries ≢ []
    → HasShard repository entries
unfolding shards_of
shards_of-HasShard dir repository [] n = absurd (n refl)
shards_of-HasShard dir repository (entry ∷ rest) n =
    elim (Bool-cases (entry.is_dir || not (is_shard repository entry.name))) [
      | inl e ↦
          let later = shards_of-HasShard dir repository rest (rw e at n) in
          record {
            entry = later.entry;
            listed = inr later.listed;
            is_file = later.is_file;
            named = later.named;
          }
      | inr e ↦ record {
        entry = entry;
        listed = inl refl;
        is_file = ground (arith, e);
        named = is_shard-IsShardName repository entry.name (ground (arith, e));
      }
    ]

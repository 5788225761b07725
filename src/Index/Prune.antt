-- ===== src/Index/Prune.antt =====
-- What `_prune_shards` of src/ida_multi_mcp/tools/index_store.py leaves in a directory.
use ida_multi_mcp.Prelude.{
  ◌≡◌, ◌⊎◌, refl, ◌∙◌, inl, inr, true, false, List, [], ◌∷◌, Option, none, some, Text, text_eq,
  lookup, lookup-erase, text_eq_iff, if◌then◌else◌, arith,
}
use ida_multi_mcp.Index.Names.{is_shard_name}
use ida_multi_mcp.Index.{Files, Os, remove, is_kept, prune_steps, shard_paths, last_of}

-- It holds of every directory of a list.
abbrev pub All : (Files → Type 0) → List Files → Type 0
All P [] = Unit {0}
All P (d ∷ ds) = P d × All P ds

pub All-map :
    (P Q : Files → Type 0) → ((e : Files) → P e → Q e) → (ds : List Files) → All P ds → All Q ds
All-map P Q f [] h = tt
All-map P Q f (d ∷ ds) h = (f d h.0, All-map P Q f ds h.1)

pub All-zip :
    (P Q : Files → Type 0) (ds : List Files) → All P ds → All Q ds → All (λ e. P e × Q e) ds
All-zip P Q [] h k = tt
All-zip P Q (d ∷ ds) h k = ((h.0, k.0), All-zip P Q ds h.1 k.1)

pub All-last :
    (P : Files → Type 0) (os : Os) (d : Files) (ds : List Files)
    → P d
    → All P ds
    → P (last_of os d ds)
All-last P os d [] p h = p
All-last P os d (e ∷ es) p h = All-last P os e es h.0 h.1

pub lookup-shard_paths :
    (os : Os) (key a : Text) (d : Files)
    → is_shard_name key a ≡ false
    → lookup a (shard_paths os key d) ≡ none
unfolding shard_paths lookup
lookup-shard_paths os key a [] h = refl
lookup-shard_paths os key a ((n, t) ∷ d) h =
    ground (arith, lookup-shard_paths os key a d, text_eq_iff n a)

module _ (os : Os) where
  lookup-pruned :
      (keep : Option Text) (name a : Text) (d : Files)
      → (text_eq name a ≡ false) ⊎ (is_kept os keep a ≡ true)
      → lookup a (if is_kept os keep name then d else remove os name d) ≡ lookup a d
  unfolding remove
  lookup-pruned none name a d (inl h) = ground (arith, lookup-erase name a d)
  lookup-pruned (some k) name a d (inl h) = ground (arith, lookup-erase name a d)
  lookup-pruned none name a d (inr h) = absurd (ground arith)
  lookup-pruned (some k) name a d (inr h) =
      ground (arith, lookup-erase name a d, text_eq_iff name a)

  head_case :
      (keep : Option Text) (name a t : Text) (more : Files)
      → (lookup a ((name, t) ∷ more) ≡ none) ⊎ (is_kept os keep a ≡ true)
      → (text_eq name a ≡ false) ⊎ (is_kept os keep a ≡ true)
  unfolding lookup
  head_case keep name a t more (inl h) = inl (ground arith)
  head_case keep name a t more (inr h) = inr h

  tail_case :
      (keep : Option Text) (name a t : Text) (more : Files)
      → (lookup a ((name, t) ∷ more) ≡ none) ⊎ (is_kept os keep a ≡ true)
      → (lookup a more ≡ none) ⊎ (is_kept os keep a ≡ true)
  unfolding lookup
  tail_case keep name a t more (inl h) = inl (ground arith)
  tail_case keep name a t more (inr h) = inr h

  -- Pruning leaves what is not listed, and the shard that is kept.
  pub lookup-prune_steps :
      (keep : Option Text) (listing d : Files) (a : Text)
      → (lookup a listing ≡ none) ⊎ (is_kept os keep a ≡ true)
      → All (λ e. lookup a e ≡ lookup a d) (prune_steps os keep listing d)
  unfolding prune_steps lookup
  lookup-prune_steps keep [] d a h = tt
  lookup-prune_steps keep ((name, t) ∷ more) d a h =
      let d' : Files = if is_kept os keep name then d else remove os name d in
      let same : lookup a d' ≡ lookup a d =
        lookup-pruned keep name a d (head_case keep name a t more h) in
      (
        same,
        All-map (λ e. lookup a e ≡ lookup a d') (λ e. lookup a e ≡ lookup a d) (λ e q. q ∙ same)
            (prune_steps os keep more d')
            (lookup-prune_steps keep more d' a (tail_case keep name a t more h)),
      )

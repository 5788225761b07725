-- ===== src/Registry/Coherence.antt =====
-- The read cache of src/ida_multi_mcp/registry.py against the file: with a signature that every
-- write makes anew, a method sees what the file holds, whoever wrote it.
use ida_multi_mcp.Prelude.{
  ℕ, ◌+◌, ◌≤◌, ◌<◌, ◌≡◌, ◌⊎◌, refl, sym, ap, ◌∙◌, inl, inr, true, [], ◌∷◌, Option, none, some, Dict,
  or_default, if◌then◌else◌, Bool-cases, Option-cases, arith,
}
use ida_multi_mcp.Registry.Schema.{
  Python, Info, RawEntry, object, not_object, Data, empty_data, is_valid_info, valid_instances,
}
use ida_multi_mcp.Registry.Disk.{
  File, missing, corrupt, json, Store, signature_of, file_signature, same_sig, cache_get, cache_put,
  normalise, read_file, load, as_raw, to_root, save, write_elsewhere,
}

-- What the file holds, by `_load` without its cache.
abbrev pub file_data : Python → File → Data
file_data py missing = empty_data
file_data py corrupt = empty_data
file_data py (json r) = normalise py r

abbrev pub contents : Python → Store → Data
contents py s = file_data py s.file

-- The cache is empty, or older than the file, or it holds what the file holds.
abbrev pub Cached : Python → File → ℕ → Option ℕ → Option Data → Type 0
Cached py f stamp none c = Unit {0}
Cached py f stamp (some n) none = Unit {0}
Cached py f stamp (some n) (some d) = (n ≤ stamp) × (n ≡ stamp → d ≡ file_data py f)

abbrev pub IsCoherent : Python → Store → Type 0
IsCoherent py s = Cached py s.file s.stamp s.cached_sig s.cached_data

-- The entries pass the validation of `_load`.
abbrev pub AllValid : Python → Dict Info → Type 0
AllValid py [] = Unit {0}
AllValid py ((id, e) ∷ d) = (is_valid_info py e ≡ true) × AllValid py d

pub valid_instances-AllValid :
    (py : Python) (d : Dict RawEntry) → AllValid py (valid_instances py d)
unfolding valid_instances
valid_instances-AllValid py [] = tt
valid_instances-AllValid py ((id, not_object) ∷ d) = valid_instances-AllValid py d
valid_instances-AllValid py ((id, object e) ∷ d) = ground (arith, valid_instances-AllValid py d)

-- So what a method sees is valid, whatever stands in the file.
pub contents-AllValid : (py : Python) (s : Store) → AllValid py (contents py s).instances
unfolding normalise
contents-AllValid py s = go s.file
  where
    go : (f : File) → AllValid py (file_data py f).instances
    go missing = tt
    go corrupt = tt
    go (json r) = valid_instances-AllValid py (or_default r.instances [])

valid_instances-as_raw :
    (py : Python) (d : Dict Info) → AllValid py d → valid_instances py (as_raw d) ≡ d
unfolding valid_instances as_raw
valid_instances-as_raw py [] h = refl
valid_instances-as_raw py ((id, e) ∷ d) h = ground (arith, valid_instances-as_raw py d)

-- What is saved is what is loaded again, if its entries are valid.
pub normalise-to_root :
    (py : Python) (d : Data) → AllValid py d.instances → normalise py (to_root d) ≡ d
unfolding normalise
normalise-to_root py d h =
    ap (λ (i : Dict Info). record d { instances = i }) (valid_instances-as_raw py d.instances h)

pub save-contents :
    (py : Python) (s : Store) (d : Data)
    → AllValid py d.instances
    → (contents py (save s d) ≡ d) × IsCoherent py (save s d)
unfolding save
save-contents py s d h =
    (normalise-to_root py d h, (omega arith, λ e. sym (normalise-to_root py d h)))

Cached-hit :
    (py : Python) (f : File) (n : ℕ) (sig : Option ℕ) (c : Option Data) {d : Data}
    → Cached py f n sig c
    → (if same_sig sig n then c else none) ≡ some d
    → d ≡ file_data py f
Cached-hit py f n none c h e = cc
Cached-hit py f n (some m) none h e = ground arith
Cached-hit py f n (some m) (some d) h e = ground arith

pub hit :
    (py : Python) (s : Store) (f : File) {d : Data}
    → Cached py f s.stamp s.cached_sig s.cached_data
    → cache_get s (signature_of f s.stamp) ≡ some d
    → d ≡ file_data py f
unfolding cache_get
hit py s missing h e = cc
hit py s corrupt h e = Cached-hit py corrupt s.stamp s.cached_sig s.cached_data h e
hit py s (json r) h e = Cached-hit py (json r) s.stamp s.cached_sig s.cached_data h e

Cached-move :
    (py : Python) (f f' : File) (n n' : ℕ) (sig : Option ℕ) (c : Option Data)
    → ((n < n') ⊎ ((n ≡ n') × (file_data py f ≡ file_data py f')))
    → Cached py f n sig c
    → Cached py f' n' sig c
Cached-move py f f' n n' none c m h = tt
Cached-move py f f' n n' (some k) none m h = tt
Cached-move py f f' n n' (some k) (some d) (inl lt) h = (omega arith, λ e. absurd (omega arith))
Cached-move py f f' n n' (some k) (some d) (inr same) h =
    (omega arith, λ e. h.1 (omega arith) ∙ same.1)

miss :
    (py : Python) (s : Store) (f : File)
    → s.file ≡ f
    → IsCoherent py s
    → let (s', d) = read_file py s f in
      (d ≡ file_data py f) × (contents py s' ≡ file_data py f) × IsCoherent py s'
unfolding cache_put file_signature
miss py s missing e h = (refl, rw e, h)
miss py s corrupt e h = elim (Bool-cases s.can_quarantine) [
  | inl moved ↦ rw moved (
    refl,
    refl,
    Cached-move py s.file missing s.stamp s.stamp s.cached_sig s.cached_data (inr (refl, rw e)) h,
  )
  | inr kept ↦ rw kept (refl, rw e, h)
]
miss py s (json r) e h = rw e (refl, refl, (omega arith, λ _. refl))

-- `_load` returns what the file holds, by the cache or not, and keeps the cache in step.
pub load-contents :
    (py : Python) (s : Store)
    → IsCoherent py s
    → ((load py s).1 ≡ contents py s)
      × (contents py (load py s).0 ≡ contents py s)
      × IsCoherent py (load py s).0
unfolding load file_signature
load-contents py s h = elim (Option-cases (cache_get s (file_signature s))) [
  | inl e ↦ rw (e, load) (miss py s s.file refl h)
  | inr (d, e) ↦ rw (e, load) (hit py s s.file h e, refl, h)
]

pub write_elsewhere-IsCoherent :
    (py : Python) (s : Store) (f : File) → IsCoherent py s → IsCoherent py (write_elsewhere s f)
unfolding write_elsewhere
write_elsewhere-IsCoherent py s f h =
    Cached-move py s.file f s.stamp (s.stamp + 1) s.cached_sig s.cached_data (inl (omega arith)) h

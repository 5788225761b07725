-- ===== src/Registry/Disk.antt =====
-- The file layer of src/ida_multi_mcp/registry.py: `_load`, `_save` and the read cache.
-- The signature (mtime, size, inode) of a file is a number that each write of the file makes anew.
-- A method runs under the file lock; an I/O error while saving is not modelled.
use ida_multi_mcp.Prelude.{
  ℕ, ◌+◌, ◌==◌, Bool, false, [], ◌∷◌, Option, none, some, Text, Dict, or_default, if◌then◌else◌,
}
use ida_multi_mcp.Registry.Schema.{
  Python, Info, RawEntry, object, Expired, Data, empty_data, valid_instances,
}

-- A root object; a key that is missing is `none`. A root whose keys have values of other types, on
-- which `_load` raises, is left out.
pub record Root : Type 0 where
  pub instances : Option (Dict RawEntry)
  pub active_instance : Option Text
  pub expired : Option (Dict Expired)

-- `corrupt`: not JSON, or not an object.
pub data File : Type 0 where
  missing corrupt : File
  json : Root → File

-- The file, and the fields of an `InstanceRegistry`.
pub record Store : Type 0 where
  pub file : File
  pub stamp : ℕ
  -- whether `os.replace` can move a corrupt file away
  pub can_quarantine : Bool
  pub cached_data : Option Data
  pub cached_sig : Option ℕ

-- `_file_signature`
abbrev pub signature_of : File → ℕ → Option ℕ
signature_of missing stamp = none
signature_of corrupt stamp = some stamp
signature_of (json r) stamp = some stamp

unfoldable pub file_signature : Store → Option ℕ
file_signature s = signature_of s.file s.stamp

-- `sig == self._cached_sig`
abbrev pub same_sig : Option ℕ → ℕ → Bool
same_sig none n = false
same_sig (some m) n = m == n

-- `_cache_get`
unfoldable pub cache_get : Store → Option ℕ → Option Data
cache_get s none = none
cache_get s (some n) = if same_sig s.cached_sig n then s.cached_data else none

-- `_cache_put`
unfoldable pub cache_put : Store → Data → Option ℕ → Store
cache_put s d none = s
cache_put s d (some n) = record s { cached_data = some d; cached_sig = some n }

-- The defaults for missing keys, and the entries that are valid.
unfoldable pub normalise : Python → Root → Data
normalise py r = record {
  instances = valid_instances py (or_default r.instances []);
  active_instance = r.active_instance;
  expired = or_default r.expired [];
}

-- The part of `_load` behind the cache.
abbrev pub read_file : Python → Store → File → Store × Data
read_file py s missing = (s, empty_data)
read_file py s corrupt = (if s.can_quarantine then record s { file = missing } else s, empty_data)
read_file py s (json r) = let d = normalise py r in (cache_put s d (file_signature s), d)

-- `_load`
unfoldable pub load : Python → Store → Store × Data
unfolding cache_get file_signature
load py s = elim (cache_get s (file_signature s)) [ some d ↦ (s, d) | none ↦ read_file py s s.file ]

-- What `json.dump` writes of the data.
unfoldable pub as_raw : Dict Info → Dict RawEntry
as_raw [] = []
as_raw ((id, e) ∷ d) = (id, object e) ∷ as_raw d

abbrev pub to_root : Data → Root
to_root d = record {
  instances = some (as_raw d.instances);
  active_instance = d.active_instance;
  expired = some d.expired;
}

-- `_save`: the file is replaced, and what was written is cached under the new signature.
unfoldable pub save : Store → Data → Store
unfolding cache_put file_signature
save s d =
    let s' = record s { file = json (to_root d); stamp = s.stamp + 1 } in
    cache_put s' d (file_signature s')

-- `_snapshot`: without the lock on a hit.
unfoldable pub snapshot : Python → Store → Store × Data
unfolding load cache_get file_signature
snapshot py s = elim (cache_get s (file_signature s)) [ some d ↦ (s, d) | none ↦ load py s ]

-- Another process replaces or removes the file.
unfoldable pub write_elsewhere : Store → File → Store
write_elsewhere s f = record s { file = f; stamp = s.stamp + 1 }

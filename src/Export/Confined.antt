-- ===== src/Export/Confined.antt =====
-- Where `_handle_decompile_to_file` of src/ida_multi_mcp/server.py writes, and what it counts.
use mathlib.Core.Path.{subst}
use ida_multi_mcp.Prelude.{
  ℕ, suc, ◌+◌, ◌≡◌, refl, Bool, true, false, not, ◌&&◌, ◌||◌, List, [], ◌∷◌, ◌++◌, Option, none,
  some, Text, text, text_eq, text_in, Dict, length, if◌then◌else◌, arith, if-cases, option-cases,
}
use ida_multi_mcp.ToolSchemas.{starts_with}
use ida_multi_mcp.Export.{
  is_in, file_name, join, ends_in_slash, Decompiled, Collected, ExportError, ok, error, Result,
  Progress, write_one, write_single, name_for, ListReply, collect, page_size,
}
use ida_multi_mcp.Export.Run.{
  Request, Report, no_progress, merge_one, merge_all, merged_name, write_files, check_dir, is_given,
  export_to, export_all, decompile_to_file,
}
use ida_multi_mcp.Export.Files.{is_plain, file_name-plain}

-- `dir` with an entry
abbrev pub entry_of : Text → Text → Text
entry_of dir file = if ends_in_slash dir then dir ++ file else dir ++ b'/' ∷ file

-- All files written are entries of `dir`, under plain names.
abbrev pub AllIn : Text → List (Text × Text) → Type 0
AllIn dir [] = Unit {0}
AllIn dir ((path, body) ∷ rest) =
    ((file : Text) × (is_plain file ≡ true) × (path ≡ entry_of dir file)) × AllIn dir rest

AllIn-append :
    (dir path body : Text) (l : List (Text × Text))
    → AllIn dir l
    → (file : Text) × (is_plain file ≡ true) × (path ≡ entry_of dir file)
    → AllIn dir (l ++ (path, body) ∷ [])
AllIn-append dir path body [] a e = (e, tt)
AllIn-append dir path body ((p, b) ∷ l) a e = (a.0, AllIn-append dir path body l a.1 e)

-- Every branch on whether there is code.
code-cases {ℓ ℓ'} :
    {B : Type ℓ} (P : B → Type ℓ') (o : Option Text) {x : B} {f : ℕ → Text → B}
    → ((c : ℕ) (cs : Text) → P (f c cs))
    → P x
    → P (elim o [ some (c ∷ cs) ↦ f c cs | _ ↦ x ])
code-cases P none p n = n
code-cases P (some []) p n = n
code-cases P (some (c ∷ cs)) p n = p c cs

-- What holds of the counters after `n` addresses.
abbrev pub Counted : ℕ → Progress → Type 0
Counted n p = p.success + p.failed ≡ n

module _ (decompile : Text → Decompiled) (names : Dict Text) (dir : Text) where
  write_one-AllIn :
      (addr : Text) (p : Progress) (n : ℕ)
      → AllIn dir p.writes × Counted n p
      → let q = write_one decompile names dir addr p in AllIn dir q.writes × Counted (suc n) q
  unfolding write_one join
  write_one-AllIn addr p n (a, k) =
      let name = name_for names (decompile addr) addr in
      let file = file_name name addr in
      let (plain, rel) = file_name-plain name addr in
      code-cases (λ (q : Progress). AllIn dir q.writes × Counted (suc n) q) (decompile addr).code
        (λ c cs. (AllIn-append dir _ _ p.writes a (file, plain, rw rel refl), omega (arith, k)))
        (a, omega (arith, k))

  write_single-AllIn :
      (addrs : List Text) (p : Progress) (n : ℕ)
      → AllIn dir p.writes × Counted n p
      → let q = write_single decompile names dir addrs p in
        AllIn dir q.writes × Counted (n + length addrs) q
  unfolding write_single
  write_single-AllIn [] p n h = (h.0, omega (arith, h.1))
  write_single-AllIn (a ∷ rest) p n h =
      let r =
        write_single-AllIn rest (write_one decompile names dir a p) (suc n)
          (write_one-AllIn a p n h) in
      (r.0, omega (arith, r.1))

  merge_one-Counted :
      (addr : Text) (q : Progress × Text) (n : ℕ)
      → Counted n q.0
      → Counted (suc n) (merge_one decompile names addr q).0
  unfolding merge_one
  merge_one-Counted addr (p, body) n h =
      code-cases (λ (q : Progress × Text). Counted (suc n) q.0) (decompile addr).code
        (λ c cs. omega (arith, h)) (omega (arith, h))

  merge_all-Counted :
      (addrs : List Text) (q : Progress × Text) (n : ℕ)
      → Counted n q.0
      → Counted (n + length addrs) (merge_all decompile names addrs q).0
  unfolding merge_all
  merge_all-Counted [] q n h = omega (arith, h)
  merge_all-Counted (a ∷ rest) q n h =
      let r =
        merge_all-Counted rest (merge_one decompile names a q) (suc n)
          (merge_one-Counted a q n h) in
      omega (arith, r)

write_files-AllIn :
    (decompile : Text → Decompiled) (merged : Bool) (dir : Text) (c : Collected)
    → let q = write_files decompile merged dir c in AllIn dir q.writes × Counted (length c.addrs) q
unfolding write_files join
write_files-AllIn decompile false dir c =
    let w = write_single-AllIn decompile c.addr_names dir c.addrs no_progress 0 (tt, refl) in
    (w.0, omega (arith, w.1))
write_files-AllIn decompile true dir c =
    let k = merge_all-Counted decompile c.addr_names dir c.addrs (no_progress, []) 0 refl in
    (((merged_name, unfold is_in in refl, refl), tt), omega (arith, k))

-- Whether the directory is the current one or below it.
abbrev pub is_below : Text → Text → Bool
is_below cwd dir = text_eq dir cwd || starts_with (cwd ++ b'/' ∷ []) dir

-- What a report says, for the directory `dir` that the request resolves to.
abbrev pub Confined : Request → Report → Type 0
Confined r rep =
    (rep.output_dir ≡ r.resolved_dir)
    × AllIn r.resolved_dir rep.writes
    × (text_in (text "..") r.normal_parts ≡ false)
    × (r.allow_outside_cwd ≡ false → is_below r.cwd r.resolved_dir ≡ true)
    × (rep.success + rep.failed ≡ rep.total)

abbrev ConfinedResult : Request → Option (Result Report) → Type 0
ConfinedResult r (some (ok rep)) = Confined r rep
ConfinedResult r _ = Unit {0}

-- What the guards let through.
abbrev Checked : Request → Result Text → Type 0
Checked r (error e) = Unit {0}
Checked r (ok dir) =
    (dir ≡ r.resolved_dir)
    × (text_in (text "..") r.normal_parts ≡ false)
    × (r.allow_outside_cwd ≡ false → is_below r.cwd r.resolved_dir ≡ true)

check_dir-Checked : (r : Request) → Checked r (check_dir r)
unfolding check_dir
check_dir-Checked r =
    if-cases (Checked r) (text_in (text "..") r.normal_parts) (λ dots. tt)
      (λ no_dots.
        if-cases (Checked r)
          (not r.allow_outside_cwd
            && (not (text_eq r.resolved_dir r.cwd)
                && not (starts_with (r.cwd ++ b'/' ∷ []) r.resolved_dir)))
          (λ outside. tt) (λ inside. (refl, no_dots, λ a. ground arith)))

list-cases {ℓ ℓ' ℓ''} :
    {A : Type ℓ} {B : Type ℓ'} (P : B → Type ℓ'') (l : List A) {x : B} {f : A → List A → B}
    → P x
    → ((a : A) (rest : List A) → P (f a rest))
    → P (elim l [ [] ↦ x | a ∷ rest ↦ f a rest ])
list-cases P [] n p = n
list-cases P (a ∷ rest) n p = p a rest

module _ (decompile : Text → Decompiled) (r : Request) (dir : Text)
    (checked : Checked r (ok dir)) where
  abbrev Fine : Result Report → Type 0
  Fine result = ConfinedResult r (some result)

  export_to-Confined : (c : Collected) → Fine (export_to decompile r.merged dir c)
  export_to-Confined c =
      let (same, dots, below) = checked in
      let w = write_files-AllIn decompile r.merged dir c in
      list-cases Fine c.addrs tt (λ a rest. (
        same,
        subst (λ d. AllIn d (write_files decompile r.merged dir c).writes) same w.0,
        dots,
        below,
        w.1,
      ))

  export_all-Confined : (o : Result Collected) → Fine (export_all decompile r.merged dir o)
  export_all-Confined (error e) = tt
  export_all-Confined (ok c) = list-cases Fine c.addrs tt (λ a rest. export_to-Confined c)

result-cases {ℓ ℓ' ℓ''} :
    {A : Type ℓ} {B : Type ℓ'} (P : B → Type ℓ'') (m : Result A) {f : ExportError → B} {g : A → B}
    → ((e : ExportError) → P (f e))
    → ((a : A) → m ≡ ok a → P (g a))
    → P (elim m [ error e ↦ f e | ok a ↦ g a ])
result-cases P (error e) p q = p e
result-cases P (ok a) p q = q a refl

result-Confined :
    (list_funcs : ℕ → ListReply) (decompile : Text → Decompiled) (fuel : ℕ) (r : Request)
    → ConfinedResult r (decompile_to_file list_funcs decompile fuel r)
unfolding decompile_to_file
result-Confined list_funcs decompile fuel r =
    if-cases (ConfinedResult r) (not (is_given r.instance_id)) (λ missing. tt)
      (λ given.
        result-cases (ConfinedResult r) (check_dir r) (λ e. tt)
          (λ dir e.
            let checked = subst (Checked r) e (check_dir-Checked r) in
            if-cases (ConfinedResult r) r.all
              (λ all.
                option-cases (ConfinedResult r)
                  (collect page_size list_funcs fuel 0 (record { addrs = []; addr_names = [] }))
                  (λ running. tt) (λ c done. export_all-Confined decompile r dir checked c))
              (λ some_only.
                export_to-Confined decompile r dir checked
                  (record { addrs = r.addrs; addr_names = [] }))))

-- If the export returns a report, then it has used the real path of a directory whose name has no
-- ".." in it and which, unless writing elsewhere was allowed, is the current directory or below it;
-- each file that it wrote is an entry of that directory, with no separator and no ".." in its name;
-- and each address is counted once, as a success or as a failure.
pub decompile_to_file-Confined :
    (list_funcs : ℕ → ListReply) (decompile : Text → Decompiled) (fuel : ℕ) (r : Request)
    (rep : Report)
    → decompile_to_file list_funcs decompile fuel r ≡ some (ok rep)
    → Confined r rep
decompile_to_file-Confined list_funcs decompile fuel r rep e =
    subst (ConfinedResult r) e (result-Confined list_funcs decompile fuel r)

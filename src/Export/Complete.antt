-- ===== src/Export/Complete.antt =====
-- An export of all functions by src/ida_multi_mcp/server.py returns.
use ida_multi_mcp.Prelude.{
  ℕ, ◌*◌, ◌≤◌, ◌<◌, ◌≡◌, refl, ap, ◌∙◌, Bool, true, List, [], ◌∷◌, some, Text, length, arith,
}
use ida_multi_mcp.Export.{Function, Collected, Decompiled, ok, page_size}
use ida_multi_mcp.Export.Run.{
  Request, Report, report, write_files, is_given, check_dir, export_all, decompile_to_file,
}
use ida_multi_mcp.Export.Paging.{addresses, answers, collect-answers}

nonempty-cases {ℓ ℓ'} :
    {A : Type ℓ} {B : Type ℓ'} (l : List A) (x y : B)
    → 0 < length l
    → elim l [ [] ↦ x | a ∷ rest ↦ y ] ≡ y
nonempty-cases [] x y h = absurd (omega arith)
nonempty-cases (a ∷ rest) x y h = refl

export_all-some :
    (decompile : Text → Decompiled) (merged : Bool) (dir : Text) (c : Collected)
    → 0 < length c.addrs
    → export_all decompile merged dir (ok c)
      ≡ ok (report dir c (write_files decompile merged dir c))
export_all-some decompile merged dir c some_addrs =
    nonempty-cases c.addrs _ _ some_addrs ∙ nonempty-cases c.addrs _ _ some_addrs

-- If the request names an instance and asks for all functions, its directory passes the checks, and
-- the instance has a fixed list of functions, at least one of them with an address, then the export
-- returns a report within the rounds that the pages of 500 functions need, and one at least; its
-- total is the number of the addresses that the instance lists.
pub decompile_to_file-some :
    (fs : List Function) (decompile : Text → Decompiled) (fuel : ℕ) (r : Request)
    → is_given r.instance_id ≡ true
    → r.all ≡ true
    → check_dir r ≡ ok r.resolved_dir
    → 0 < fuel
    → length fs ≤ fuel * page_size
    → 0 < length (addresses fs)
    → (rep : Report) × (decompile_to_file (answers page_size fs) decompile fuel r ≡ some (ok rep))
      × (rep.total ≡ length (addresses fs))
unfolding decompile_to_file
decompile_to_file-some fs decompile fuel r given all let_through some_fuel enough some_addrs =
    let (c, found, same) = collect-answers page_size fs fuel (omega arith) some_fuel enough in
    let l = ap length same in
    let nonempty : 0 < length c.addrs = omega (arith, l, some_addrs) in
    let reported = export_all-some decompile r.merged r.resolved_dir c nonempty in
    (
      report r.resolved_dir c (write_files decompile r.merged r.resolved_dir c),
      rw (given, let_through, all, found, reported) refl,
      l,
    )

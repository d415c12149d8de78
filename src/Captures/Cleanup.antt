-- ===== src/Captures/Cleanup.antt =====
-- Which files a cleanup removes.
use seclab_suite_protocol_si.Base.{
  >>=-eq-ok, Bool, IsIn, List, Option, Result, [], ap, arith, false, if-keeps, inl, inr, length,
  none, not, ok, ok-injective, refl, some, subst, suc, sym, true, zero, ℕ, ◌&&◌, ◌+◌, ◌∙◌, ◌∷◌, ◌≡◌,
}
use seclab_suite_protocol_si.Base.Text.{Text}
use seclab_suite_protocol_si.Base.Text.Utf8.{from_utf8}
use seclab_suite_protocol_si.Captures.{
  CaptureError, Node, OrphanCleanupReport, Removal, at_end, cleanup_orphaned_capture_files,
  default_report, entries_of, entry_loop, entry_step, failed, gone, is_kept, named_step, not_found,
  opened, record_removal, removal_step, remove_file,
}
use seclab_suite_protocol_si.Captures.RemoveFile.{
  count_of, length-remove_file, remove_file-IsIn, remove_file-Within,
}

abbrev kept_name : List Text → Option Text → Bool
kept_name referenced_files none = true
kept_name referenced_files (some file_name) = is_kept referenced_files file_name

abbrev is_free : Option Text → Bool
is_free none = true
is_free (some error) = false

abbrev is_file : Option Bool → Bool
is_file none = false
is_file (some file) = file

-- A regular file with a managed name that is not referenced, and that may be removed.
abbrev pub is_orphan : List Text → Node → Bool
is_orphan referenced_files node =
    not (kept_name referenced_files (from_utf8 node.name))
    && (is_file node.kind && is_free node.refusal)

-- No two nodes share a name.
abbrev pub HasNames : List Node → Type 0
HasNames nodes = (a b : Node) → IsIn a nodes → IsIn b nodes → a.name ≡ b.name → a ≡ b

-- From some nodes to those that a step leaves, with the reports in front of it and behind.
abbrev Cleans :
    List Text
    → List Node
    → List Node
    → OrphanCleanupReport
    → OrphanCleanupReport × List Node
    → Type 0
Cleans referenced_files all_nodes nodes report (after, left) =
    ((x : Node)
      → IsIn x all_nodes
      → is_orphan referenced_files x ≡ false
      → IsIn x nodes
      → IsIn x left)
    × ((x : Node) → IsIn x left → IsIn x nodes)
    × (length nodes + report.removed ≡ length left + after.removed)

record_removal-removed :
    (name : Text) (removal : Removal) (report : OrphanCleanupReport)
    → (record_removal name removal report).removed ≡ report.removed + count_of removal
record_removal-removed name gone report = refl
record_removal-removed name not_found report = omega arith
record_removal-removed name (failed error) report = omega arith

module _ (referenced_files : List Text) (all_nodes : List Node) (names : HasNames all_nodes) where
  unchanged-Cleans :
      (nodes : List Node) (report : OrphanCleanupReport)
      → Cleans referenced_files all_nodes nodes report (report, nodes)
  unchanged-Cleans nodes report = ((λ x known plain member. member), (λ x member. member), refl)

  -- The entry is a regular file with this name, and the name is not kept.
  removes-Cleans :
      (entry : Node) (file_name : Text) (nodes : List Node) (report : OrphanCleanupReport)
      → IsIn entry all_nodes
      → from_utf8 entry.name ≡ some file_name
      → is_kept referenced_files file_name ≡ false
      → entry.kind ≡ some true
      → Cleans referenced_files all_nodes nodes report (
        record_removal file_name (remove_file entry.name nodes).0 report,
        (remove_file entry.name nodes).1,
      )
  removes-Cleans entry file_name nodes report known named unkept regular = (
    (λ x there plain member. elim (remove_file-IsIn entry.name nodes x member) [
      | inl left ↦ left
      | inr (same_name, free) ↦
          let same : entry ≡ x = names entry x known there (sym same_name) in
          let removable : entry.refusal ≡ none =
            subst (λ (n : Node). n.refusal ≡ none) (sym same) free in
          let orphan : is_orphan referenced_files entry ≡ true =
            rw (named, unkept, regular, removable) refl in
          let not_orphan : is_orphan referenced_files entry ≡ false =
            subst (λ (n : Node). is_orphan referenced_files n ≡ false) (sym same) plain in
          cc
    ]),
    (λ x member. remove_file-Within entry.name nodes x member),
    omega (
      arith,
      length-remove_file entry.name nodes,
      record_removal-removed file_name (remove_file entry.name nodes).0 report,
    ),
  )

  removal_step-Cleans :
      (entry : Node) (file_name : Text) (kind : Option Bool) (nodes : List Node)
      (report : OrphanCleanupReport) {out : OrphanCleanupReport × List Node}
      → IsIn entry all_nodes
      → from_utf8 entry.name ≡ some file_name
      → is_kept referenced_files file_name ≡ false
      → entry.kind ≡ kind
      → removal_step entry file_name kind report nodes ≡ ok out
      → Cleans referenced_files all_nodes nodes report out
  removal_step-Cleans entry file_name none nodes report known named unkept kind e = cc
  removal_step-Cleans entry file_name (some false) nodes report {out} known named unkept kind e =
      subst (Cleans referenced_files all_nodes nodes report)
        (ok-injective {E = CaptureError} (report, nodes) out e) (unchanged-Cleans nodes report)
  removal_step-Cleans entry file_name (some true) nodes report {out} known named unkept kind e =
      subst (Cleans referenced_files all_nodes nodes report)
        (ok-injective {E = CaptureError}
          (
            record_removal file_name (remove_file entry.name nodes).0 report,
            (remove_file entry.name nodes).1,
          )
          out e)
        (removes-Cleans entry file_name nodes report known named unkept kind)

  named_step-Cleans :
      (entry : Node) (name : Option Text) (nodes : List Node) (report : OrphanCleanupReport)
      {out : OrphanCleanupReport × List Node}
      → IsIn entry all_nodes
      → from_utf8 entry.name ≡ name
      → named_step referenced_files entry name report nodes ≡ ok out
      → Cleans referenced_files all_nodes nodes report out
  named_step-Cleans entry none nodes report {out} known named e =
      subst (Cleans referenced_files all_nodes nodes report)
        (ok-injective {E = CaptureError} (report, nodes) out e) (unchanged-Cleans nodes report)
  named_step-Cleans entry (some file_name) nodes report {out} known named e =
      if-keeps
        (λ (r : Result CaptureError (OrphanCleanupReport × List Node)).
          r ≡ ok out → Cleans referenced_files all_nodes nodes report out)
        (is_kept referenced_files file_name) _ _
        (λ kept e.
          subst (Cleans referenced_files all_nodes nodes report)
            (ok-injective {E = CaptureError} (report, nodes) out e) (unchanged-Cleans nodes report))
        (λ unkept e.
          removal_step-Cleans entry file_name entry.kind nodes report known named unkept refl e)
        e

  entry_step-Cleans :
      (entry : Node) (nodes : List Node) (report : OrphanCleanupReport)
      {out : OrphanCleanupReport × List Node}
      → IsIn entry all_nodes
      → entry_step referenced_files entry report nodes ≡ ok out
      → Cleans referenced_files all_nodes nodes report out
  unfolding entry_step
  entry_step-Cleans entry nodes report known e =
      named_step-Cleans entry (from_utf8 entry.name) nodes report known refl e

  entry_loop-Cleans :
      (entries nodes : List Node) (report : OrphanCleanupReport)
      {out : OrphanCleanupReport × List Node}
      → ((x : Node) → IsIn x entries → IsIn x all_nodes)
      → entry_loop referenced_files entries report nodes ≡ ok out
      → Cleans referenced_files all_nodes nodes report out
  unfolding entry_loop
  entry_loop-Cleans [] nodes report {out} known e =
      subst (Cleans referenced_files all_nodes nodes report)
        (ok-injective {E = CaptureError} (report, nodes) out e) (unchanged-Cleans nodes report)
  entry_loop-Cleans (entry ∷ entries) nodes report {out} known e =
      let ((after, left), step, rest) =
        >>=-eq-ok (entry_step referenced_files entry report nodes) _ e in
      let (kept, within_nodes, counted) =
        entry_step-Cleans entry nodes report (known entry (inl refl)) step in
      let (kept_then, within_left, counted_then) =
        entry_loop-Cleans entries left after {out = out} (λ x member. known x (inr member)) rest in
      (
        (λ x there plain member. kept_then x there plain (kept x there plain member)),
        (λ x member. within_nodes x (within_left x member)),
        omega (arith, counted, counted_then),
      )

IsIn-entries_of :
    (nodes : List Node) (fails : Option ℕ) (x : Node)
    → IsIn x (entries_of nodes fails)
    → IsIn x nodes
IsIn-entries_of nodes none x member = member
IsIn-entries_of nodes (some zero) x member = absurd member
IsIn-entries_of [] (some (suc count)) x member = absurd member
IsIn-entries_of (node ∷ nodes) (some (suc count)) x (inl same) = inl same
IsIn-entries_of (node ∷ nodes) (some (suc count)) x (inr behind) =
    inr (IsIn-entries_of nodes (some count) x behind)

at_end_ok : {A : Type 0} (fails : Option ℕ) (a b : A) → at_end fails a ≡ ok b → a ≡ b
at_end_ok none a b e = ok-injective {E = CaptureError} a b e
at_end_ok (some count) a b e = cc

-- Where no two nodes of the directory share a name, a cleanup that ends without an error keeps every node that is no
-- regular file with a managed name that is unreferenced and may be removed; it adds nothing; and what
-- it counts as removed is what is missing.
pub cleanup_orphaned_capture_files-IsIn :
    (nodes : List Node) (fails : Option ℕ) (referenced_files : List Text)
    {report : OrphanCleanupReport} {left : List Node}
    → HasNames nodes
    → cleanup_orphaned_capture_files (opened nodes fails) referenced_files ≡ ok (report, left)
    → ((x : Node) → IsIn x nodes → is_orphan referenced_files x ≡ false → IsIn x left)
      × ((x : Node) → IsIn x left → IsIn x nodes)
      × (length nodes ≡ length left + report.removed)
unfolding cleanup_orphaned_capture_files
cleanup_orphaned_capture_files-IsIn nodes fails referenced_files {report} {left} names e =
    let (out, loop, ended) =
      >>=-eq-ok (entry_loop referenced_files (entries_of nodes fails) default_report nodes) _ e in
    let (kept, known, counted) =
      entry_loop-Cleans referenced_files nodes names (entries_of nodes fails) nodes default_report
        {out = (report, left)} (IsIn-entries_of nodes fails)
        (loop ∙ ap ok (at_end_ok fails out (report, left) ended)) in
    ((λ x there plain. kept x there plain there), known, omega (arith, counted))

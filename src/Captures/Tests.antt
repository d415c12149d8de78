-- ===== src/Captures/Tests.antt =====
-- A cleanup of a directory with a capture that nothing refers to and a node whose name is no text.
use seclab_suite_protocol_si.Base.{
  IsIn, [], false, inl, inr, length, none, ok, refl, some, sym, true, ◌+◌, ◌∙◌, ◌∷◌, ◌≡◌,
}
use seclab_suite_protocol_si.Base.Text.{codes}
use seclab_suite_protocol_si.Base.Text.Utf8.{utf8_char}
use seclab_suite_protocol_si.Captures.{
  Node, capture_file_name, cleanup_orphaned_capture_files, opened,
}
use seclab_suite_protocol_si.Captures.Cleanup.{
  HasNames, cleanup_orphaned_capture_files-IsIn, is_orphan,
}

abbrev orphan : Node
orphan = record { name = capture_file_name (codes "a-1"); kind = some true; refusal = none }

abbrev unnamed : Node
unnamed = record { name = 0xff ∷ []; kind = some true; refusal = none }

two_names : HasNames (orphan ∷ unnamed ∷ [])
two_names a b (inl e) (inl f) same = e ∙ sym f
two_names a b (inl e) (inr (inl f)) same = cc
two_names a b (inl e) (inr (inr none_left)) same = absurd none_left
two_names a b (inr (inl e)) (inl f) same = cc
two_names a b (inr (inl e)) (inr (inl f)) same = e ∙ sym f
two_names a b (inr (inl e)) (inr (inr none_left)) same = absurd none_left
two_names a b (inr (inr none_left)) member same = absurd none_left

cleaned :
    cleanup_orphaned_capture_files (opened (orphan ∷ unnamed ∷ []) none) []
    ≡ ok (record { removed = 1; failures = [] }, unnamed ∷ [])
unfolding cleanup_orphaned_capture_files utf8_char
cleaned = refl

cleanup_orphaned_capture_files-IsIn_example :
    ((x : Node) → IsIn x (orphan ∷ unnamed ∷ []) → is_orphan [] x ≡ false → IsIn x (unnamed ∷ []))
    × ((x : Node) → IsIn x (unnamed ∷ []) → IsIn x (orphan ∷ unnamed ∷ []))
    × (length {A = Node} (orphan ∷ unnamed ∷ []) ≡ length {A = Node} (unnamed ∷ []) + 1)
cleanup_orphaned_capture_files-IsIn_example =
    cleanup_orphaned_capture_files-IsIn (orphan ∷ unnamed ∷ []) none [] two_names cleaned

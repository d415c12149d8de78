-- ===== src/Captures.antt =====
-- Capture files, crates/protocol-simulation/src/pcap.rs lines 6 to 90: their names, and the removal of those that
-- no instance refers to.
pub mod RemoveFile
pub mod Cleanup
mod Tests
use seclab_suite_protocol_si.Base.{
  Bool, List, Option, Result, [], all, bail_if, err, false, if◌then◌else◌, is_empty, none, not, ok,
  some, take, true, ℕ, ◌&&◌, ◌++◌, ◌+◌, ◌==◌, ◌>>=◌, ◌>>◌, ◌||◌, ◌∷◌,
}
use seclab_suite_protocol_si.Base.Bits.{Bytes}
use seclab_suite_protocol_si.Base.Text.{
  Text, codes, is_one_of, split, strip_prefix, text_eq, within,
}
use seclab_suite_protocol_si.Base.Text.Utf8.{from_utf8, utf8}
use mathlib.Core.List.{reverse}
use mathlib.Core.Option

-- A node of the directory of the captures: the bytes of its name; whether it is a regular file, if that can be
-- told; and the error that its removal is refused with, as that of a directory is, if any.
pub record Node : Type 0 where
  pub name : Bytes
  pub kind : Option Bool
  pub refusal : Option Text

-- The directory, as it is opened. `next_entry` may fail, after so many entries.
pub data Opened : Type 0 where
  opened : List Node → Option ℕ → Opened
  missing unreadable : Opened

pub data CaptureError : Type 0 where
  invalid_name unreadable_directory unreadable_entry unknown_kind not_removed : CaptureError

pub record OrphanCleanupReport : Type 0 where
  pub removed : ℕ
  pub failures : List (Text × Text)

abbrev pub default_report : OrphanCleanupReport
default_report = record { removed = 0; failures = [] }

abbrev pub capture_file_name : Text → Text
capture_file_name instance_id = codes "pcap_" ++ (instance_id ++ codes ".pcap")

unfoldable pub strip_suffix : Text → Text → Option Text
unfolding strip_prefix
strip_suffix t suffix = Option.map reverse (strip_prefix (reverse t) (reverse suffix))

-- `byte.is_ascii_alphanumeric() || byte == b'-'`
abbrev pub is_id_byte : ℕ → Bool
is_id_byte byte =
    within b'0' b'9' byte || within b'A' b'Z' byte || within b'a' b'z' byte || byte == b'-'

abbrev pub is_id : Option Text → Bool
is_id none = false
is_id (some value) = not (is_empty value) && all is_id_byte (utf8 value)

abbrev pub between : Option Text → Option Text
between none = none
between (some value) = strip_suffix value (codes ".pcap")

unfoldable pub is_managed_capture_file : Text → Bool
unfolding strip_prefix strip_suffix utf8
is_managed_capture_file file_name = is_id (between (strip_prefix file_name (codes "pcap_")))

-- `Path::file_name`: the last part of the path that is not empty or a dot, if it is not two dots.
abbrev pub last_part : Option Text → List Text → Option Text
last_part found [] = found
last_part found (part ∷ parts) =
    last_part (if is_one_of part ([] ∷ codes "." ∷ []) then found else some part) parts

abbrev pub not_parent : Option Text → Option Text
not_parent none = none
not_parent (some part) = if text_eq part (codes "..") then none else some part

abbrev pub is_text : Option Text → Text → Bool
is_text none value = false
is_text (some other) value = text_eq other value

unfoldable pub path_file_name : Text → Option Text
unfolding split text_eq
path_file_name path = not_parent (last_part none (split (λ c. c == b'/') path))

-- The path of a capture file is its name, in the directory of the captures.
unfoldable pub capture_file_path : Text → Result CaptureError Text
unfolding is_managed_capture_file path_file_name text_eq
capture_file_path file_name = do
  bail_if
      (not (is_managed_capture_file file_name)
        || not (is_text (path_file_name file_name) file_name))
      invalid_name
  ok file_name

-- What `remove_file` comes to; a refusal has its error.
pub data Removal : Type 0 where
  gone not_found : Removal
  failed : Text → Removal

abbrev pub onto_nodes : Node → Removal × List Node → Removal × List Node
onto_nodes node rest = (rest.0, node ∷ rest.1)

abbrev pub remove_first : Option Text → Node → List Node → Removal × List Node
remove_first none node nodes = (gone, nodes)
remove_first (some error) node nodes = (failed error, node ∷ nodes)

-- `remove_file`, of the node with a name.
unfoldable pub remove_file : Bytes → List Node → Removal × List Node
unfolding text_eq
remove_file name [] = (not_found, [])
remove_file name (node ∷ nodes) =
    let rest = remove_file name nodes in
    if text_eq node.name name then remove_first node.refusal node nodes else onto_nodes node rest

abbrev after_removal : Removal × List Node → Result CaptureError (Bool × List Node)
after_removal (gone, nodes) = ok (true, nodes)
after_removal (not_found, nodes) = ok (false, nodes)
after_removal (failed error, nodes) = err not_removed

unfoldable pub remove_capture_file :
    List Node → Option Text → Result CaptureError (Bool × List Node)
unfolding capture_file_path remove_file
remove_capture_file nodes none = ok (false, nodes)
remove_capture_file nodes (some file_name) = do
  path ← capture_file_path file_name
  after_removal (remove_file (utf8 path) nodes)

abbrev pub record_removal : Text → Removal → OrphanCleanupReport → OrphanCleanupReport
record_removal file_name gone report = record report { removed = report.removed + 1 }
record_removal file_name not_found report = report
record_removal file_name (failed error) report = record report {
  failures = report.failures ++ ((file_name, error) ∷ []);
}

-- An entry with a name that is managed and unreferenced: it is removed if it is a regular file.
abbrev pub removal_step :
    Node
    → Text
    → Option Bool
    → OrphanCleanupReport
    → List Node
    → Result CaptureError (OrphanCleanupReport × List Node)
removal_step entry file_name none report nodes = err unknown_kind
removal_step entry file_name (some false) report nodes = ok (report, nodes)
removal_step entry file_name (some true) report nodes =
    let (removal, left) = remove_file entry.name nodes in
    ok (record_removal file_name removal report, left)

abbrev pub is_kept : List Text → Text → Bool
is_kept referenced_files file_name =
    is_one_of file_name referenced_files || not (is_managed_capture_file file_name)

abbrev pub named_step :
    List Text
    → Node
    → Option Text
    → OrphanCleanupReport
    → List Node
    → Result CaptureError (OrphanCleanupReport × List Node)
named_step referenced_files entry none report nodes = ok (report, nodes)
named_step referenced_files entry (some file_name) report nodes =
    if is_kept referenced_files file_name
    then ok (report, nodes)
    else removal_step entry file_name entry.kind report nodes

-- One entry; `to_str` of its name is none where that is not UTF-8.
unfoldable pub entry_step :
    List Text
    → Node
    → OrphanCleanupReport
    → List Node
    → Result CaptureError (OrphanCleanupReport × List Node)
unfolding remove_file is_managed_capture_file text_eq from_utf8
entry_step referenced_files entry report nodes =
    named_step referenced_files entry (from_utf8 entry.name) report nodes

-- The entries that `next_entry` gives, and what it gives behind them.
abbrev pub entries_of : List Node → Option ℕ → List Node
entries_of nodes none = nodes
entries_of nodes (some count) = take count nodes

abbrev pub at_end : {A : Type 0} → Option ℕ → A → Result CaptureError A
at_end none a = ok a
at_end (some count) a = err unreadable_entry

-- The loop over the entries, as they were when the directory was opened.
unfoldable pub entry_loop :
    List Text
    → List Node
    → OrphanCleanupReport
    → List Node
    → Result CaptureError (OrphanCleanupReport × List Node)
unfolding entry_step
entry_loop referenced_files [] report nodes = ok (report, nodes)
entry_loop referenced_files (entry ∷ entries) report nodes = do
  (after, left) ← entry_step referenced_files entry report nodes
  entry_loop referenced_files entries after left

unfoldable pub cleanup_orphaned_capture_files :
    Opened → List Text → Result CaptureError (OrphanCleanupReport × List Node)
unfolding entry_loop
cleanup_orphaned_capture_files missing referenced_files = ok (default_report, [])
cleanup_orphaned_capture_files unreadable referenced_files = err unreadable_directory
cleanup_orphaned_capture_files (opened nodes fails) referenced_files = do
  out ← entry_loop referenced_files (entries_of nodes fails) default_report nodes
  at_end fails out

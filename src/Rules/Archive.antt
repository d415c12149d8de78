-- ===== src/Rules/Archive.antt =====
-- The archive of a rule package, rule_package.rs lines 115 to 158: its entries, one after the other.
use seclab_suite_protocol_si.Base.{
  List, Option, Result, [], bail_if, context, err, if◌then◌else◌, length, ltb, map, none, not, ok,
  some, ℕ, ◌+◌, ◌==◌, ◌>>=◌, ◌>>◌, ◌∷◌,
}
use seclab_suite_protocol_si.Base.Bits.{Bytes}
use seclab_suite_protocol_si.Base.Text.{Text, codes, is_one_of, text_eq}
use seclab_suite_protocol_si.Base.Text.Utf8.{from_utf8}
use seclab_suite_protocol_si.Rules.{
  Crates, Entry, RuleError, duplicate_entry, max_rules_bin_bytes, max_signature_bytes,
  missing_entry, not_a_file, too_large, unexpected_entry, unreadable,
}

-- The variables of the loop.
pub record Found : Type 0 where
  pub rules_bin : Option Bytes
  pub signature_text : Option Text
  pub seen_entries : List Text

abbrev pub nothing_found : Found
nothing_found = record { rules_bin = none; signature_text = none; seen_entries = [] }

-- `path.replace('\\', "/")`
abbrev pub with_slashes : Text → Text
with_slashes = map (λ c. if c == 0x5c then b'/' else c)

-- The content, read to one byte behind the limit.
abbrev pub read_limited : Entry → ℕ → Result RuleError Bytes
read_limited entry limit = do
  content ← context (entry.read (limit + 1)) unreadable
  bail_if (ltb limit (length content)) too_large
  ok content

abbrev pub read_text_limited : Entry → ℕ → Result RuleError Text
read_text_limited entry limit = do
  content ← context (entry.read (limit + 1)) unreadable
  decoded ← context (from_utf8 content) unreadable
  bail_if (ltb limit (length content)) too_large
  ok decoded

abbrev pub keep_rules : Found → Entry → Result RuleError Found
keep_rules found entry = do
  content ← read_limited entry max_rules_bin_bytes
  ok (record found { rules_bin = some content })

abbrev keep_signature : Found → Entry → Result RuleError Found
keep_signature found entry = do
  content ← read_text_limited entry max_signature_bytes
  ok (record found { signature_text = some content })

-- The entry at a path that is new.
abbrev keep_entry : Found → Entry → Text → Result RuleError Found
keep_entry found entry path =
    if text_eq path (codes "rules.bin")
    then keep_rules found entry
    else if text_eq path (codes "rules.bin.sig")
    then keep_signature found entry
    else err unexpected_entry

unfoldable pub entry_step : Found → Option Entry → Result RuleError Found
unfolding text_eq from_utf8
entry_step found none = err unreadable
entry_step found (some entry) = do
  shown ← context entry.path unreadable
  let path = with_slashes shown
  bail_if (is_one_of path found.seen_entries) duplicate_entry
  bail_if (not entry.is_file) not_a_file
  keep_entry (record found { seen_entries = path ∷ found.seen_entries }) entry path

unfoldable pub entry_loop : Found → List (Option Entry) → Result RuleError Found
unfolding entry_step
entry_loop found [] = ok found
entry_loop found (entry ∷ entries) = do after ← entry_step found entry; entry_loop after entries

-- The two contents of the package.
unfoldable pub read_archive :
    {Json : Type 0} → Crates Json → Bytes → Result RuleError (Bytes × Text)
unfolding entry_loop
read_archive crates bytes = do
  entries ← context (crates.entries bytes) unreadable
  found ← entry_loop nothing_found entries
  rules_bin ← context found.rules_bin missing_entry
  signature_text ← context found.signature_text missing_entry
  ok (rules_bin, signature_text)

-- ===== src/Collectors/HostKeys.antt =====
-- `HostKeyEntry` and `HostKeyStore` of homeinfra/collectors.py. `sha256` stands for the hash of hashlib
-- in hexadecimal digits; a write that fails leaves the file, which is the same as no write.
pub mod RoundTrip
use homeinfra_control_center.Prelude.{
  ℕ, Bool, true, false, not, Option, none, some, List, [], ◌∷◌, ◌++◌, map, Text, txt, ◌==◌, strip,
  starts_with, is_empty, find, keep, take, if◌then◌else◌,
}
use homeinfra_control_center.Parsers.Text.{splitlines, split}

pub record HostKeyEntry : Type 0 where
  pub hostname : Text
  pub key_type : Text
  pub key_base64 : Text

-- `fingerprint_sha256`
unfoldable pub fingerprint_sha256 : (Text → Text) → HostKeyEntry → Text
fingerprint_sha256 sha256 entry = take 32 (sha256 entry.key_base64)

unfoldable pub to_known_hosts_line : HostKeyEntry → Text
to_known_hosts_line e = e.hostname ++ (32 ∷ (e.key_type ++ (32 ∷ e.key_base64)))

-- `_entries`, in the order in which the hosts were added.
abbrev pub HostKeys : Type 0
HostKeys = List HostKeyEntry

-- `self._entries[hostname] = entry`
unfoldable pub put_entry : HostKeyEntry → HostKeys → HostKeys
put_entry entry [] = entry ∷ []
put_entry entry (e ∷ entries) =
    if entry.hostname == e.hostname then entry ∷ entries else e ∷ put_entry entry entries

unfoldable pub lookup_entry : Text → HostKeys → Option HostKeyEntry
lookup_entry hostname = find (λ e. hostname == e.hostname)

-- A line of the file: `continue` on a comment, and on fewer than three words.
unfoldable pub read_entry : List Text → HostKeys → HostKeys
unfolding put_entry
read_entry (hostname ∷ key_type ∷ key_base64 ∷ words) entries =
    put_entry (record { hostname = hostname; key_type = key_type; key_base64 = key_base64 }) entries
read_entry _ entries = entries

unfoldable pub read_line : Text → HostKeys → HostKeys
read_line line entries =
    if starts_with (txt "#") (strip line) then entries else read_entry (split (strip line)) entries

unfoldable pub read_lines : List Text → HostKeys → HostKeys
read_lines [] entries = entries
read_lines (line ∷ lines) entries = read_lines lines (read_line line entries)

-- `_load`, of the content of the file.
unfoldable pub load_entries : Text → HostKeys
unfolding splitlines read_lines
load_entries content = read_lines (splitlines content) []

-- `"\n".join(lines) + "\n"`
unfoldable pub join_lines : List Text → Text
join_lines [] = 10 ∷ []
join_lines (line ∷ []) = line ++ (10 ∷ [])
join_lines (line ∷ next ∷ lines) = line ++ (10 ∷ join_lines (next ∷ lines))

-- What is written to the file.
unfoldable pub saved_entries : HostKeys → Text
unfolding join_lines to_known_hosts_line
saved_entries entries = join_lines (map to_known_hosts_line entries)

-- The entries and the file, where the store has one.
pub record HostKeyStore : Type 0 where
  pub entries : HostKeys
  pub file : Option Text

abbrev pub written : HostKeys → Option Text → Option Text
written entries none = none
written entries (some content) = some (saved_entries entries)

unfoldable pub add_entry : HostKeyEntry → HostKeyStore → HostKeyStore
unfolding put_entry saved_entries
add_entry entry s =
    let entries = put_entry entry s.entries in
    record { entries = entries; file = written entries s.file }

unfoldable pub remove_entry : Text → HostKeyStore → HostKeyStore
unfolding saved_entries
remove_entry hostname s =
    let entries = keep (λ e. not (hostname == e.hostname)) s.entries in
    record { entries = entries; file = written entries s.file }

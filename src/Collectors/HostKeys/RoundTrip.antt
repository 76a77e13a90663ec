-- ===== src/Collectors/HostKeys/RoundTrip.antt =====
-- What is written to the file of known hosts is read back.
use homeinfra_control_center.Prelude.{
  ◌≡◌, refl, sym, ap, ◌∙◌, subst, false, List, [], ◌∷◌, ◌++◌, map, Text, txt, ◌==◌, strip,
  starts_with, All,
}
use mathlib.Core.List.{append_assoc, append-nil}
use homeinfra_control_center.Prelude.Counting.{All-append}
use homeinfra_control_center.Parsers.Text.Words.{
  Word, OneLine, split_lines-line, split-Word, split-append, Word-OneLine, OneLine-join,
  strip-words,
}
use homeinfra_control_center.Parsers.Text.{is_line_break, split_lines, splitlines, split}
use homeinfra_control_center.Collectors.HostKeys.{
  HostKeyEntry, HostKeys, put_entry, read_entry, read_line, read_lines, load_entries, join_lines,
  saved_entries, to_known_hosts_line,
}

-- An entry that a line of the file can hold: three words, of which the first begins no comment.
pub record IsEntry (e : HostKeyEntry) : Type 0 where
  pub host : Word e.hostname
  pub kind : Word e.key_type
  pub key : Word e.key_base64
  pub plain : starts_with (txt "#") e.hostname ≡ false

starts_with-Word :
    (w s : Text) → Word w → starts_with (txt "#") w ≡ false → starts_with (txt "#") (w ++ s) ≡ false
unfolding starts_with
starts_with-Word [] s h k = absurd h
starts_with-Word (c ∷ w) s h k = k

abbrev line_of : HostKeyEntry → Text
line_of e = e.hostname ++ (32 ∷ (e.key_type ++ (32 ∷ e.key_base64)))

line_of-strip : (e : HostKeyEntry) → IsEntry e → strip (line_of e) ≡ line_of e
line_of-strip e h =
    let joined = append_assoc e.key_type (32 ∷ []) e.key_base64 in
    subst (λ (t : Text). strip (e.hostname ++ (32 ∷ t)) ≡ e.hostname ++ (32 ∷ t)) joined
      (strip-words e.hostname (32 ∷ (e.key_type ++ (32 ∷ []))) e.key_base64 h.host h.key)

line_of-split :
    (e : HostKeyEntry) → IsEntry e → split (line_of e) ≡ e.hostname ∷ e.key_type ∷ e.key_base64 ∷ []
line_of-split e h =
    rw
      (
        split-append e.hostname (e.key_type ++ (32 ∷ e.key_base64)) h.host,
        split-append e.key_type e.key_base64 h.kind,
        split-Word e.key_base64 h.key,
      )
      refl

-- A line that was written is read as its entry.
read_line-entry :
    (e : HostKeyEntry) (entries : HostKeys)
    → IsEntry e
    → read_line (to_known_hosts_line e) entries ≡ put_entry e entries
unfolding read_line to_known_hosts_line read_entry
read_line-entry e entries h =
    rw
      (
        line_of-strip e h,
        starts_with-Word e.hostname (32 ∷ (e.key_type ++ (32 ∷ e.key_base64))) h.host h.plain,
        line_of-split e h,
      )
      refl

line_of-OneLine : (e : HostKeyEntry) → IsEntry e → OneLine (to_known_hosts_line e)
unfolding to_known_hosts_line
line_of-OneLine e h =
    OneLine-join e.hostname (e.key_type ++ (32 ∷ e.key_base64)) (Word-OneLine e.hostname h.host) (
      OneLine-join e.key_type e.key_base64 (Word-OneLine e.key_type h.kind)
        (Word-OneLine e.key_base64 h.key))

-- A name that no entry has.
abbrev pub Fresh : Text → HostKeys → Type 0
Fresh hostname = All (λ (e : HostKeyEntry). hostname == e.hostname ≡ false)

put_entry-Fresh :
    (e : HostKeyEntry) (entries : HostKeys)
    → Fresh e.hostname entries
    → put_entry e entries ≡ entries ++ (e ∷ [])
unfolding put_entry
put_entry-Fresh e [] h = refl
put_entry-Fresh e (f ∷ entries) h = rw (h.0, put_entry-Fresh e entries h.1) refl

-- No name twice.
abbrev pub Distinct : HostKeys → Type 0
Distinct [] = Unit
Distinct (e ∷ entries) =
    All (λ (f : HostKeyEntry). f.hostname == e.hostname ≡ false) entries × Distinct entries

Fresh-more :
    (e : HostKeyEntry) (entries seen : HostKeys)
    → All (λ (f : HostKeyEntry). f.hostname == e.hostname ≡ false) entries
    → All (λ (f : HostKeyEntry). Fresh f.hostname seen) entries
    → All (λ (f : HostKeyEntry). Fresh f.hostname (seen ++ (e ∷ []))) entries
Fresh-more e [] seen d f = tt
Fresh-more e (g ∷ entries) seen d f = (
  All-append (λ (k : HostKeyEntry). g.hostname == k.hostname ≡ false) seen (e ∷ []) f.0 (d.0, tt),
  Fresh-more e entries seen d.1 f.1,
)

Fresh-All : (entries : HostKeys) → All (λ (e : HostKeyEntry). Fresh e.hostname []) entries
Fresh-All [] = tt
Fresh-All (e ∷ entries) = (tt, Fresh-All entries)

read_lines-entries :
    (entries seen : HostKeys)
    → All IsEntry entries
    → Distinct entries
    → All (λ (e : HostKeyEntry). Fresh e.hostname seen) entries
    → read_lines (map to_known_hosts_line entries) seen ≡ seen ++ entries
unfolding read_lines
read_lines-entries [] seen h d f = sym (append-nil seen)
read_lines-entries (e ∷ entries) seen h d f =
    ap (read_lines (map to_known_hosts_line entries))
      (read_line-entry e seen h.0 ∙ put_entry-Fresh e seen f.0)
    ∙ read_lines-entries entries (seen ++ (e ∷ [])) h.1 d.1 (Fresh-more e entries seen d.0 f.1)
    ∙ append_assoc seen (e ∷ []) entries

split_lines-join :
    (e : HostKeyEntry) (entries : HostKeys)
    → All IsEntry (e ∷ entries)
    → splitlines (saved_entries (e ∷ entries)) ≡ map to_known_hosts_line (e ∷ entries)
unfolding splitlines saved_entries join_lines split_lines
split_lines-join e [] h = split_lines-line (to_known_hosts_line e) [] (line_of-OneLine e h.0)
split_lines-join e (f ∷ entries) h =
    split_lines-line (to_known_hosts_line e) (saved_entries (f ∷ entries)) (line_of-OneLine e h.0)
    ∙ ap (λ (lines : List Text). to_known_hosts_line e ∷ lines) (split_lines-join f entries h.1)

-- Reading the lines that were written for entries of distinct hosts gives the entries back, in
-- their order, where each field is a word without white space and no host begins with a hash
-- sign.
pub load-saved_entries :
    (entries : HostKeys)
    → All IsEntry entries
    → Distinct entries
    → load_entries (saved_entries entries) ≡ entries
unfolding load_entries saved_entries join_lines split_lines is_line_break read_lines read_line strip
    split starts_with read_entry
load-saved_entries [] h d = refl
load-saved_entries (e ∷ entries) h d =
    rw (split_lines-join e entries h)
      (read_lines-entries (e ∷ entries) [] h d (Fresh-All (e ∷ entries)))

-- ===== src/Parsers/Links.antt =====
-- `parse_ip_s_link` of homeinfra/parsers.py, with its regular expressions as matchers.
use homeinfra_control_center.Prelude.{
  ℕ, ◌+◌, ◌*◌, ◌-◌, Bool, false, ◌&&◌, ◌||◌, not, Option, none, some, List, [], ◌∷◌, ◌++◌, Text,
  txt, strip, is_space, is_empty, starts_with, nat_eq, if◌then◌else◌, drop_while,
}
use homeinfra_control_center.Prelude.Int.{pos}
use homeinfra_control_center.Ids.{is_digit}
use homeinfra_control_center.Model.Json.{int, str, Fields}
use homeinfra_control_center.Parsers.Text.{splitlines, split_on, drop}
use homeinfra_control_center.Parsers.Tables.{dict, given, or_none, read_each, unless, ◌>>=◌}

abbrev pub begins_with_digit : Text → Bool
begins_with_digit [] = false
begins_with_digit (c ∷ s) = is_digit c

-- `\d+: ` at the start of a line.
unfoldable pub begins_block : Text → Bool
unfolding is_digit starts_with
begins_block line = begins_with_digit line && starts_with (txt ": ") (drop_while is_digit line)

-- A line in front of the blocks of the lines behind it: `re.split(r"\n(?=\d+: )", text)`.
unfoldable pub join_line : Text → List Text → List Text
unfolding begins_block
join_line line [] = line ∷ []
join_line line (block ∷ blocks) =
    if begins_block block then line ∷ block ∷ blocks else (line ++ (10 ∷ block)) ∷ blocks

unfoldable pub blocks_of : List Text → List Text
unfolding join_line
blocks_of [] = []
blocks_of (line ∷ lines) = join_line line (blocks_of lines)

-- `\s+` at the start; `none` where there is no white space.
unfoldable pub after_space : Text → Option Text
unfolding is_space
after_space [] = none
after_space (c ∷ s) = if is_space c then some (drop_while is_space s) else none

-- `[^\s@:]+`
unfoldable pub take_name : Text → Text
unfolding is_space
take_name [] = []
take_name (c ∷ s) =
    let rest = take_name s in if is_space c || nat_eq c b'@' || nat_eq c b':' then [] else c ∷ rest

-- `\d+:\s+([^\s@:]+)`, and the group that it captures.
unfoldable pub match_header : Text → Option Text
unfolding is_digit starts_with after_space take_name
match_header line =
    unless (not (begins_with_digit line && starts_with (txt ":") (drop_while is_digit line))) (do
      rest ← after_space (drop 1 (drop_while is_digit line))
      let name = take_name rest
      unless (is_empty name) (some name))

pub data Direction : Type 0 where
  rx tx : Direction

unfoldable pub match_direction : Text → Option Direction
unfolding starts_with
match_direction s =
    if starts_with (txt "RX:") s
    then some rx
    else if starts_with (txt "TX:") s
    then some tx
    else none

-- The number that the digits at the start write.
unfoldable pub leading_number : ℕ → Text → ℕ
unfolding is_digit
leading_number n [] = n
leading_number n (c ∷ s) =
    let more = leading_number (n * 10 + (c - b'0')) s in if is_digit c then more else n

-- `\s+(RX|TX):\s+bytes\s+(\d+)`, and the groups that it captures.
unfoldable pub match_counter : Text → Option (Direction × ℕ)
unfolding after_space match_direction starts_with leading_number is_digit
match_counter line = do
  labelled ← after_space line
  direction ← match_direction labelled
  unit ← after_space (drop 3 labelled)
  unless (not (starts_with (txt "bytes") unit)) (do
    digits ← after_space (drop 5 unit)
    unless (not (begins_with_digit digits)) (some (direction, leading_number 0 digits)))

-- The counters of an interface.
pub record Bytes : Type 0 where
  pub rx_bytes : ℕ
  pub tx_bytes : ℕ

unfoldable pub count_bytes : Option (Direction × ℕ) → Bytes → Bytes
count_bytes none b = b
count_bytes (some (rx, n)) b = record b { rx_bytes = n }
count_bytes (some (tx, n)) b = record b { tx_bytes = n }

unfoldable pub read_bytes : List Text → Bytes → Bytes
unfolding match_counter count_bytes
read_bytes [] b = b
read_bytes (line ∷ lines) b = read_bytes lines (count_bytes (match_counter line) b)

unfoldable pub read_block : Text → Option Fields
unfolding strip splitlines match_header read_bytes
read_block block =
    let lines = splitlines (strip block) in
    elim lines [
      | [] ↦ none
      | line ∷ others ↦ elim (match_header line) [
        | none ↦ none
        | some name ↦
            let b = read_bytes (line ∷ others) (record { rx_bytes = 0; tx_bytes = 0 }) in
            some (
              dict (
                ("name", str name)
                ∷ ("rx_bytes", int (pos b.rx_bytes))
                ∷ ("tx_bytes", int (pos b.tx_bytes))
                ∷ []))
      ]
    ]

unfoldable pub parse_ip_s_link : Text → Option (List Fields)
unfolding split_on blocks_of read_block
parse_ip_s_link text = given text (or_none (read_each read_block (blocks_of (split_on 10 text))))

-- ===== src/Parsers/Network.antt =====
-- The network parsers of homeinfra/parsers.py: /proc/net/dev and its rates, and `ip -br addr`.
use homeinfra_control_center.Prelude.{
  ◌*◌, ◌&&◌, not, Option, none, some, List, [], ◌∷◌, Text, txt, ◌==◌, strip, is_empty, starts_with,
  nat_eq, if◌then◌else◌, keep, sort, text_le,
}
use homeinfra_control_center.Prelude.Int.{ℤ, pos, pos_part, leb_ℤ, ◌-ℤ◌}
use homeinfra_control_center.Model.Json.{bool, str, arr, Items, nil, cons, Fields}
use homeinfra_control_center.Monitoring.Values.{times_ℤ}
use homeinfra_control_center.Parsers.Text.{
  splitlines, split, items_from, item, strip_right, has_char, starts_with_any, stripped_lines,
}
use homeinfra_control_center.Parsers.Numbers.{Decimal, Fraction, parse_integer, round}
use homeinfra_control_center.Parsers.Tables.{dict, given, or_none, read_each, unless, ◌>>=◌}

pub record Interface : Type 0 where
  pub name : Text
  pub rx_bytes : ℤ
  pub tx_bytes : ℤ

-- A row of at least ten columns; the loopback is left out.
unfoldable pub read_interface : List Text → Option Interface
unfolding parse_integer
read_interface parts = do
  enough ← item 9 parts
  label ← item 0 parts
  rx ← item 1 parts
  let name = strip_right (λ c. nat_eq c b':') label
  unless (name == txt "lo") (do
    rx_bytes ← parse_integer rx
    tx_bytes ← parse_integer enough
    some (record { name = name; rx_bytes = rx_bytes; tx_bytes = tx_bytes }))

-- The two lines of the header are skipped.
unfoldable pub parse_proc_net_dev : Text → Option (List Interface)
unfolding strip splitlines split read_interface
parse_proc_net_dev text = given text (
    or_none (
      read_each (λ line. read_interface (split (strip line)))
        (items_from 2 (splitlines (strip text)))))

-- `{iface["name"]: iface for iface in interfaces}.get(name)`
unfoldable pub interface_of : Text → List Interface → Option Interface
interface_of name [] = none
interface_of name (i ∷ interfaces) = elim (interface_of name interfaces) [
  | some found ↦ some found
  | none ↦ if i.name == name then some i else none
]

unfoldable pub interface_names : List Interface → List Text
interface_names [] = []
interface_names (i ∷ interfaces) =
    i.name ∷ keep (λ name. not (name == i.name)) (interface_names interfaces)

pub record Rate : Type 0 where
  pub name : Text
  pub rx_mbps : Decimal
  pub tx_mbps : Decimal
  pub rx_bytes_total : ℤ
  pub tx_bytes_total : ℤ

-- `round((delta * 8) / (elapsed_seconds * 1_000_000), 2)`
unfoldable pub mbps : Fraction → ℤ → ℤ → Decimal
unfolding round ◌-ℤ◌
mbps elapsed before after = round 2 (record {
  num = times_ℤ (8 * elapsed.den) (after -ℤ before);
  den = pos_part elapsed.num * 1000000;
})

unfoldable pub rate_of : List Interface → List Interface → Fraction → Text → Option Rate
unfolding interface_of mbps
rate_of ifaces1 ifaces2 elapsed name = do
  old ← interface_of name ifaces1
  new ← interface_of name ifaces2
  some (record {
    name = name;
    rx_mbps = mbps elapsed old.rx_bytes new.rx_bytes;
    tx_mbps = mbps elapsed old.tx_bytes new.tx_bytes;
    rx_bytes_total = new.rx_bytes;
    tx_bytes_total = new.tx_bytes;
  })

unfoldable pub compute_network_rates :
    Option (List Interface) → Option (List Interface) → Fraction → Option (List Rate)
unfolding interface_names rate_of text_le
compute_network_rates none net2 elapsed = none
compute_network_rates (some net1) none elapsed = none
compute_network_rates (some net1) (some net2) elapsed =
    if leb_ℤ elapsed.num (pos 0)
    then none
    else or_none (read_each (rate_of net1 net2 elapsed) (sort text_le (interface_names net1)))

abbrev pub text_items : List Text → Items
text_items [] = nil
text_items (s ∷ texts) = cons (str s) (text_items texts)

-- A row of `ip -br addr`.
unfoldable pub address_row : List Text → Option Fields
unfolding starts_with
address_row (name ∷ state ∷ parts) = some (
    dict (
      ("name", str name)
      ∷ ("state", str state)
      ∷ ("ip_addresses", arr (text_items (keep (has_char b'/') parts)))
      ∷ ("is_bridge", bool (starts_with (txt "vmbr") name))
      ∷ (
        "is_physical",
        bool (
            not (is_empty name)
            && not (starts_with_any (txt "vmbr" ∷ txt "lo" ∷ txt "docker" ∷ txt "br-" ∷ []) name)),
      )
      ∷ []))
address_row _ = none

unfoldable pub parse_ip_br_addr : Text → Option (List Fields)
unfolding stripped_lines split address_row
parse_ip_br_addr text =
    given text (or_none (read_each (λ line. address_row (split line)) (stripped_lines text)))

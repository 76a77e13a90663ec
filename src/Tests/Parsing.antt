-- ===== src/Tests/Parsing.antt =====
-- The parsers on small outputs, and their theorems applied to them.
use homeinfra_control_center.Prelude.{
  ◌≡◌, refl, arith, subst, Bool-cases, inl, inr, Option, none, some, List, [], ◌∷◌, Text, txt, All,
  length,
}
use homeinfra_control_center.Prelude.Int.{ℤ, pos, ◌+ℤ◌, ◌-ℤ◌}
use homeinfra_control_center.Errors.{ok, err, index_error}
use homeinfra_control_center.Model.Json.{Value, int, str, arr, obj, nil, cons, Fields}
use homeinfra_control_center.Parsers.Tables.{dict}
use homeinfra_control_center.Parsers.Numbers.{Fraction}
use homeinfra_control_center.Parsers.Cpu.{CpuCounters, CpuUsage, CoreUsage, eq_ℤ}
use homeinfra_control_center.Parsers.Cpu.Bounds.{
  Grows, CoresGrow, IsPercent, compute_cpu_percent_bounds,
}
use homeinfra_control_center.Parsers.Raid.Alerting.{Abnormal, parse_mdstat-Abnormal}
use homeinfra_control_center.Parsers.Usage.Headings.{SizeFirst, usage_never_read}
use homeinfra_control_center.Parsers.Disks.Alerting.{IsHealthy, rows_value, raw_values_ignored}
use homeinfra_control_center.Monitoring.Values.{collect, truthy, dictionaries}
use homeinfra_control_center.Monitoring.Thresholds.{check_raid}
use homeinfra_control_center.Monitoring.Smart.{evaluate_smart_alert}
use homeinfra_control_center.Prelude.{
  ◌==◌, is_space, strip, lower_char, lower, upper_char, upper, starts_with, contains, text_le,
}
use homeinfra_control_center.Ids.{
  is_digit, scan_int, unsigned, parse_int, after_last_dash, emit, format_05d, raise_highest,
  highest_of, next_numbered_id,
}
use homeinfra_control_center.Model.Json.{lookup, get_or, get, has, set}
use homeinfra_control_center.Parsers.Btrfs.{
  size_with, parse_size_bytes, label_of_line, uuid_of_line, new_filesystem, count_devices,
  read_used, add_device, read_detail, scan_filesystem, scan_filesystems,
  parse_btrfs_filesystem_show, read_pair, read_pairs, device_stats, read_stats,
  parse_btrfs_device_stats,
}
use homeinfra_control_center.Parsers.Cpu.{
  read_counters, read_core, scan_parts, scan_stat, parse_proc_stat, cpu_busy, cpu_total,
  busy_percent, counters_of, core_ids, core_usage, per_core, compute_cpu_percent,
}
use homeinfra_control_center.Parsers.Disks.{
  size_gb, block_device, block_devices, list_of, root_of, parse_lsblk_json,
  parse_smartctl_scan_json, attribute_table, is_failed, raw_text, smart_attribute,
  parse_smartctl_health_json,
}
use homeinfra_control_center.Parsers.Links.{
  begins_block, join_line, blocks_of, after_space, take_name, match_header, match_direction,
  leading_number, match_counter, count_bytes, read_bytes, read_block, parse_ip_s_link,
}
use homeinfra_control_center.Parsers.Network.{
  read_interface, parse_proc_net_dev, interface_of, interface_names, mbps, rate_of,
  compute_network_rates, address_row, parse_ip_br_addr,
}
use homeinfra_control_center.Parsers.Numbers.{
  parse_integer, take_digits, take_decimal, exponent, parse_float, round_half_even, round_units,
  round, gigabytes,
}
use homeinfra_control_center.Parsers.Proxmox.{
  manager_version, parse_pveversion, integer_at, storage_percent, storage_row, has_heading,
  parse_pvesm_status, size_at, guest_row, parse_guest_list, parse_qm_list, parse_pct_list,
}
use homeinfra_control_center.Parsers.Raid.{
  is_skipped, array_state, raid_type, degraded_drives, raid_array, read_array, parse_mdstat,
}
use homeinfra_control_center.Parsers.System.{
  parse_hostname, parse_uname, parse_uptime, load_average, parse_loadavg, store_memory, read_memory,
  read_memory_lines, excess, percent_of, memory_usage, summarise_memory, parse_meminfo, partition,
  parse_df,
}
use homeinfra_control_center.Parsers.Text.{
  is_line_break, split_lines, splitlines, begins_word, split, split_on, before_first, after_first,
  after_token, before_token, after_last_token, occurrences, ends_with, is_number_text,
  stripped_lines,
}
use homeinfra_control_center.Parsers.Usage.{
  read_gigabytes, new_section, read_section, is_heading, scan_usage_line, scan_usage, usage_percent,
  usage_of, parse_btrfs_filesystem_usage,
}
use homeinfra_control_center.Parsers.Zfs.{
  pool_row, parse_zpool_list, pool_status, pool_statuses, pools_of, parse_zpool_status_json,
  value_of_line, scan_status_line, scan_status_lines, parse_zpool_status_text, dataset_row,
  datasets, parse_zfs_list,
}

-- What the tests run.
unfoldable program : Unit {0}
unfolding ◌==◌ is_space strip lower_char lower upper_char upper starts_with contains text_le
    is_digit scan_int unsigned parse_int after_last_dash emit format_05d raise_highest highest_of
    next_numbered_id lookup get_or get has set size_with parse_size_bytes label_of_line uuid_of_line
    new_filesystem count_devices read_used add_device read_detail scan_filesystem scan_filesystems
    parse_btrfs_filesystem_show read_pair read_pairs device_stats read_stats
    parse_btrfs_device_stats read_counters read_core scan_parts scan_stat parse_proc_stat cpu_busy
    cpu_total busy_percent counters_of core_ids core_usage per_core compute_cpu_percent size_gb
    block_device block_devices list_of root_of parse_lsblk_json parse_smartctl_scan_json
    attribute_table is_failed raw_text smart_attribute parse_smartctl_health_json begins_block
    join_line blocks_of after_space take_name match_header match_direction leading_number
    match_counter count_bytes read_bytes read_block parse_ip_s_link read_interface
    parse_proc_net_dev interface_of interface_names mbps rate_of compute_network_rates address_row
    parse_ip_br_addr parse_integer take_digits take_decimal exponent parse_float round_half_even
    round_units round gigabytes manager_version parse_pveversion integer_at storage_percent
    storage_row has_heading parse_pvesm_status size_at guest_row parse_guest_list parse_qm_list
    parse_pct_list is_skipped array_state raid_type degraded_drives raid_array read_array
    parse_mdstat parse_hostname parse_uname parse_uptime load_average parse_loadavg store_memory
    read_memory read_memory_lines excess percent_of memory_usage summarise_memory parse_meminfo
    partition parse_df is_line_break split_lines splitlines begins_word split split_on before_first
    after_first after_token before_token after_last_token occurrences ends_with is_number_text
    stripped_lines read_gigabytes new_section read_section is_heading scan_usage_line scan_usage
    usage_percent usage_of parse_btrfs_filesystem_usage pool_row parse_zpool_list pool_status
    pool_statuses pools_of parse_zpool_status_json value_of_line scan_status_line scan_status_lines
    parse_zpool_status_text dataset_row datasets parse_zfs_list
program = tt

-- Two samples of /proc/stat.
abbrev first_stat : CpuCounters
first_stat = record {
  cpu = pos 100 ∷ pos 5 ∷ pos 20 ∷ pos 800 ∷ pos 3 ∷ [];
  cpu_cores = record { core = pos 0; counters = pos 50 ∷ pos 2 ∷ pos 10 ∷ pos 400 ∷ [] } ∷ [];
}

abbrev second_stat : CpuCounters
second_stat = record {
  cpu = pos 130 ∷ pos 5 ∷ pos 25 ∷ pos 860 ∷ pos 8 ∷ [];
  cpu_cores = record { core = pos 0; counters = pos 60 ∷ pos 2 ∷ pos 10 ∷ pos 430 ∷ [] } ∷ [];
}

abbrev one_second : Fraction
one_second = record { num = pos 1; den = 1 }

abbrev usage : CpuUsage
usage = record {
  cpu_percent = record { digits = pos 350; scale = 1 };
  cpu_cores = 1;
  per_core_cpu = record { core = pos 0; percent = record { digits = pos 250; scale = 1 } } ∷ [];
}

cpu_measured : compute_cpu_percent (some first_stat) (some second_stat) one_second ≡ some usage
unfolding program ◌+ℤ◌ ◌-ℤ◌
cpu_measured = refl

stat_read :
    parse_proc_stat (txt "cpu  100 5 20 800 3\ncpu0 50 2 10 400\nintr 7\n") ≡ some first_stat
unfolding program
stat_read = refl

cores_grow : CoresGrow first_stat.cpu_cores second_stat.cpu_cores
unfolding counters_of
cores_grow i xs ys e1 e2 = elim (Bool-cases (eq_ℤ (pos 0) i)) [
  | inl same ↦
      let before : pos 50 ∷ pos 2 ∷ pos 10 ∷ pos 400 ∷ [] ≡ xs = ground arith in
      let after : pos 60 ∷ pos 2 ∷ pos 10 ∷ pos 430 ∷ [] ≡ ys = ground arith in
      subst (λ (zs : List ℤ). Grows zs ys) before
        (subst (λ (zs : List ℤ). Grows (pos 50 ∷ pos 2 ∷ pos 10 ∷ pos 400 ∷ []) zs) after
          (omega arith))
  | inr other ↦ absurd (ground arith)
]

compute_cpu_percent_bounds_example :
    IsPercent usage.cpu_percent
    × All (λ (u : CoreUsage). IsPercent u.percent) usage.per_core_cpu
    × (usage.cpu_cores ≡ length usage.per_core_cpu)
compute_cpu_percent_bounds_example =
    compute_cpu_percent_bounds first_stat second_stat one_second (omega arith) cores_grow
      cpu_measured

-- A healthy array.
abbrev mdstat_text : Text
mdstat_text =
    txt
      "Personalities : [raid1]\nmd0 : active raid1 sda1[0] sdb1[1]\n      976629760 blocks [2/2] [UU]\n"

abbrev healthy_array : Fields
healthy_array = dict (
    ("name", str (txt "md0"))
    ∷ ("type", str (txt "raid1"))
    ∷ ("state", str (txt "ACTIVE"))
    ∷ ("drives", int (pos 2))
    ∷ ("degraded_drives", int (pos 0))
    ∷ [])

mdstat_read : parse_mdstat mdstat_text ≡ some (healthy_array ∷ [])
unfolding program
mdstat_read = refl

parse_mdstat-Abnormal_example : Abnormal 1 (collect check_raid (healthy_array ∷ []))
parse_mdstat-Abnormal_example = parse_mdstat-Abnormal mdstat_text mdstat_read

-- What `btrfs filesystem usage -b` prints.
abbrev usage_text : Text
usage_text = txt "Overall:\n    Device size:  1099511627776\n    Used:  536870912000\n"

size_first : All SizeFirst (stripped_lines usage_text)
unfolding program
size_first = (λ e. cc, (λ e. refl, (λ e. cc, tt)))

usage_never_read_example : parse_btrfs_filesystem_usage usage_text ≡ none
usage_never_read_example = usage_never_read usage_text size_first

-- A table with a drive that has reallocated five hundred sectors.
abbrev attribute : Fields
attribute = dict (
    ("name", str (txt "Reallocated_Sector_Ct"))
    ∷ ("value", int (pos 10))
    ∷ ("thresh", int (pos 36))
    ∷ ("when_failed", str (txt "-"))
    ∷ ("raw", obj (dict (("string", str (txt "500")) ∷ [])))
    ∷ [])

abbrev smart_table : Value
smart_table = arr (cons (obj attribute) nil)

abbrev smart_root : Value
smart_root = obj (dict (("ata_smart_attributes", obj (dict (("table", smart_table) ∷ []))) ∷ []))

abbrev loads : Text → Option Value
loads text = some smart_root

abbrev str_of : Value → Text
str_of (str s) = s
str_of _ = txt "?"

abbrev smart_row : Fields
smart_row = dict (
    ("attr_name", str (txt "Reallocated_Sector_Ct"))
    ∷ ("value", int (pos 10))
    ∷ ("threshold", int (pos 36))
    ∷ ("raw", str (txt "500"))
    ∷ ("status", str (txt "PASSED"))
    ∷ [])

smart_parsed : parse_smartctl_health_json str_of loads (txt "{}") ≡ ok (some (smart_row ∷ []))
unfolding program
smart_parsed = refl

smart_root_read : root_of loads (txt "{}") ≡ some smart_root
unfolding program
smart_root_read = refl

smart_table_read : attribute_table smart_root ≡ some smart_table
unfolding program truthy
smart_table_read = refl

smart_rows_read : dictionaries smart_table ≡ ok (attribute ∷ [])
unfolding dictionaries
smart_rows_read = refl

attribute-IsHealthy : IsHealthy attribute
unfolding program
attribute-IsHealthy = record {
  first = 82;
  rest = txt "eallocated_Sector_Ct";
  named = refl;
  capital = omega arith;
  passed = refl;
}

raw_values_ignored_example :
    evaluate_smart_alert (dict (("smart_attributes", arr (rows_value (smart_row ∷ []))) ∷ []))
    ≡ ok none
raw_values_ignored_example =
    raw_values_ignored str_of loads (txt "{}") smart_root_read smart_table_read smart_rows_read
      (attribute-IsHealthy, tt) smart_parsed

-- Other parsers on a line or two.
load_read :
    parse_loadavg (txt "0.32 0.28 1e1 3/1024 12345\n")
    ≡ some (record {
      load_1m = record { digits = pos 32; scale = 2 };
      load_5m = record { digits = pos 28; scale = 2 };
      load_15m = record { digits = pos 10; scale = 0 };
    })
unfolding program
load_read = refl

blank_hostname : parse_hostname (txt " \n") ≡ err index_error
unfolding program
blank_hostname = refl

version_read :
    parse_pveversion (txt "pve-manager/8.2.2/9a2c43f0 (running kernel: 6.8.4-2-pve)\n")
    ≡ ok (some (txt "8.2.2"))
unfolding program
version_read = refl

links_read :
    parse_ip_s_link
      (txt "2: eno1: <UP> mtu 1500\n    RX: bytes 999 packets 9\n    TX: bytes 888 packets 8\n")
    ≡ some (
        dict (
          ("name", str (txt "eno1"))
          ∷ ("rx_bytes", int (pos 999))
          ∷ ("tx_bytes", int (pos 888))
          ∷ [])
        ∷ [])
unfolding program
links_read = refl

raw_size : parse_size_bytes (txt "536870912000") ≡ record { num = pos 0; den = 1 }
unfolding program
raw_size = refl

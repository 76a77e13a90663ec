-- ===== src/Monitoring/Observable.antt =====
-- `_has_observable_collection_data` of homeinfra/monitoring.py, and the keys it looks at.
use homeinfra_control_center.Prelude.{
  Bool, true, false, not, List, [], ◌∷◌, Text, txt, strip, any, is_empty,
}
use homeinfra_control_center.Model.Json.{
  Value, null, str, arr, obj, nil, cons, end, field, Fields, get,
}

abbrev pub observable_collection_keys : List Text
observable_collection_keys =
    txt "hostname"
    ∷ txt "uname"
    ∷ txt "cpu_percent"
    ∷ txt "cpu_cores"
    ∷ txt "memory_percent"
    ∷ txt "memory_total_mb"
    ∷ txt "memory_used_mb"
    ∷ txt "disk_percent"
    ∷ txt "network_rx_mbps"
    ∷ txt "network_tx_mbps"
    ∷ txt "load_average"
    ∷ txt "uptime"
    ∷ txt "partitions"
    ∷ txt "network_interfaces"
    ∷ txt "block_devices"
    ∷ txt "nas_pools"
    ∷ txt "nas_volumes"
    ∷ txt "nas_snapshots"
    ∷ txt "nas_raid"
    ∷ txt "btrfs_filesystems"
    ∷ txt "btrfs_device_stats"
    ∷ txt "btrfs_usage"
    ∷ txt "pve_version"
    ∷ txt "pve_storage"
    ∷ txt "pve_vms"
    ∷ txt "pve_lxcs"
    ∷ txt "pve_interfaces"
    ∷ txt "docker_info"
    ∷ []

-- The three `continue`s of the loop.
unfoldable pub is_observable : Value → Bool
unfolding strip
is_observable null = false
is_observable (str s) = not (is_empty (strip s))
is_observable (arr nil) = false
is_observable (arr (cons v vs)) = true
is_observable (obj end) = false
is_observable (obj (field k v fs)) = true
is_observable _ = true

unfoldable pub has_observable_collection_data : Fields → Bool
unfolding is_observable get
has_observable_collection_data payload =
    any (λ key. is_observable (get key payload)) observable_collection_keys

-- ===== src/Monitoring/Thresholds.antt =====
-- `evaluate_threshold_alerts` of homeinfra/monitoring.py, a helper for each of its blocks.
use homeinfra_control_center.Prelude.{
  ℕ, Bool, not, List, [], ◌∷◌, ◌++◌, String, Text, txt, upper, mem, if◌then◌else◌,
}
use homeinfra_control_center.Prelude.Int.{pos}
use homeinfra_control_center.Errors.{Result, ok, err, type_error}
use homeinfra_control_center.Errors.Checked.{◌>>=◌}
use homeinfra_control_center.Model.Json.{Value, int, str, arr, nil, Fields, get_or}
use homeinfra_control_center.Model.State.{Message, lit, shown}
use homeinfra_control_center.Monitoring.Values.{Check, exceeds, dictionaries, collect}

abbrev pub number_at : Text → Fields → Value
number_at = get_or (int (pos 0))

abbrev pub list_at : Text → Fields → Value
list_at = get_or (arr nil)

abbrev pub name_at : Text → Fields → Value
name_at = get_or (str (txt "?"))

-- `if v > bound: alerts.append(check)`
unfoldable pub above : Value → ℕ → Check → Result (List Check)
unfolding exceeds
above v bound check = do high ← exceeds v bound; ok (if high then check ∷ [] else [])

-- `if v > critical_bound: ... elif v > bound: ...`
unfoldable pub graded : Value → ℕ → Check → ℕ → Check → Result (List Check)
unfolding exceeds above
graded v critical_bound critical bound warning = do
  worst ← exceeds v critical_bound
  if worst then ok (critical ∷ []) else above v bound warning

abbrev pub warning : String → Message → Message → Check
warning type title message = record {
  severity = txt "warning";
  type = txt type;
  title = title;
  message = message;
}

abbrev pub critical : String → Message → Message → Check
critical type title message = record {
  severity = txt "critical";
  type = txt type;
  title = title;
  message = message;
}

unfoldable pub check_cpu : Fields → Result (List Check)
unfolding above
check_cpu metrics =
    let v = number_at (txt "cpu_percent") metrics in
    above v 90
      (warning "cpu_high" (lit "CPU 使用率过高" ∷ []) (lit "CPU 使用率 " ∷ shown v ∷ lit "% 超过 90%" ∷ []))

unfoldable pub check_core : Fields → Result (List Check)
unfolding above
check_core core =
    let v = number_at (txt "percent") core in
    let name = name_at (txt "core") core in
    above v 95 (
      warning "cpu_core_high" (lit "CPU 核心 " ∷ shown name ∷ lit " 使用率过高" ∷ [])
        (lit "核心 " ∷ shown name ∷ lit " 使用率 " ∷ shown v ∷ lit "% 超过 95%" ∷ []))

unfoldable pub check_memory : Fields → Result (List Check)
unfolding above
check_memory metrics =
    let v = number_at (txt "memory_percent") metrics in
    above v 90
      (warning "memory_high" (lit "内存使用率过高" ∷ []) (lit "内存使用率 " ∷ shown v ∷ lit "% 超过 90%" ∷ []))

unfoldable pub check_disk : Fields → Result (List Check)
unfolding above
check_disk metrics =
    let v = number_at (txt "disk_percent") metrics in
    above v 85
      (warning "disk_high" (lit "磁盘使用率过高" ∷ []) (lit "根分区使用率 " ∷ shown v ∷ lit "% 超过 85%" ∷ []))

unfoldable pub check_partition : Fields → Result (List Check)
unfolding graded
check_partition part =
    let v = number_at (txt "percent") part in
    let mount = name_at (txt "mount") part in
    graded v 90
      (critical "partition_critical" (lit "分区 " ∷ shown mount ∷ lit " 使用率严重过高" ∷ [])
        (lit "分区 " ∷ shown mount ∷ lit " 使用率 " ∷ shown v ∷ lit "% 超过 90%" ∷ []))
      85
      (warning "partition_high" (lit "分区 " ∷ shown mount ∷ lit " 使用率过高" ∷ [])
        (lit "分区 " ∷ shown mount ∷ lit " 使用率 " ∷ shown v ∷ lit "% 超过 85%" ∷ []))

unfoldable pub check_sensor : Fields → Result (List Check)
unfolding graded
check_sensor sensor =
    let v = number_at (txt "temp_c") sensor in
    let label = get_or (str (txt "unknown")) (txt "sensor") sensor in
    graded v 85
      (critical "temperature_critical" (lit "传感器 " ∷ shown label ∷ lit " 温度严重过高" ∷ [])
        (shown label ∷ lit " 温度 " ∷ shown v ∷ lit "C 超过 85C" ∷ []))
      75
      (warning "temperature_high" (lit "传感器 " ∷ shown label ∷ lit " 温度过高" ∷ [])
        (shown label ∷ lit " 温度 " ∷ shown v ∷ lit "C 超过 75C" ∷ []))

unfoldable pub check_max_temperature : Fields → Result (List Check)
unfolding above
check_max_temperature metrics =
    let v = number_at (txt "temperature_c") metrics in
    above v 80 (
      critical "temperature_max_high" (lit "设备最高温度过高" ∷ [])
        (lit "设备最高温度 " ∷ shown v ∷ lit "C 超过 80C" ∷ []))

-- `v.upper() not in expected`
unfoldable pub is_abnormal : Value → List Text → Result Bool
unfolding upper
is_abnormal (str s) expected = ok (not (mem (upper s) expected))
is_abnormal _ expected = err type_error

unfoldable pub check_pool : Fields → Result (List Check)
unfolding graded is_abnormal
check_pool pool =
    let v = number_at (txt "usage_percent") pool in
    let name = name_at (txt "name") pool in
    let health = get_or (str (txt "")) (txt "health_state") pool in
    do
      usage ←
          graded v 90
            (critical "nas_pool_critical" (lit "NAS 存储池 " ∷ shown name ∷ lit " 使用率严重过高" ∷ [])
              (lit "存储池 " ∷ shown name ∷ lit " 使用率 " ∷ shown v ∷ lit "% 超过 90%" ∷ []))
            85
            (warning "nas_pool_high" (lit "NAS 存储池 " ∷ shown name ∷ lit " 使用率过高" ∷ [])
              (lit "存储池 " ∷ shown name ∷ lit " 使用率 " ∷ shown v ∷ lit "% 超过 85%" ∷ []))
      abnormal ← is_abnormal health (txt "" ∷ txt "ONLINE" ∷ txt "HEALTHY" ∷ [])
      ok (
          usage
          ++ (if abnormal
              then critical "nas_pool_degraded" (lit "NAS 存储池 " ∷ shown name ∷ lit " 状态异常" ∷ [])
                  (lit "存储池 " ∷ shown name ∷ lit " 状态: " ∷ shown health ∷ [])
                ∷ []
              else []))

unfoldable pub check_raid : Fields → Result (List Check)
unfolding above is_abnormal
check_raid raid =
    let v = number_at (txt "degraded_drives") raid in
    let name = name_at (txt "name") raid in
    let health = get_or (str (txt "")) (txt "state") raid in
    do
      degraded ← above v 0 (
          critical "nas_raid_degraded" (lit "RAID " ∷ shown name ∷ lit " 降级" ∷ [])
            (lit "RAID " ∷ shown name ∷ lit " 有 " ∷ shown v ∷ lit " 个降级磁盘" ∷ []))
      abnormal ← is_abnormal health (txt "" ∷ txt "ONLINE" ∷ txt "HEALTHY" ∷ txt "OK" ∷ [])
      ok (
          degraded
          ++ (if abnormal
              then critical "nas_raid_abnormal" (lit "RAID " ∷ shown name ∷ lit " 状态异常" ∷ [])
                  (lit "RAID " ∷ shown name ∷ lit " 状态: " ∷ shown health ∷ [])
                ∷ []
              else []))

-- `for item in metrics.get(key, [])`
abbrev pub each_at : Text → (Fields → Result (List Check)) → Fields → Result (List Check)
each_at key body metrics = do items ← dictionaries (list_at key metrics); collect body items

unfoldable pub evaluate_threshold_alerts : Fields → Result (List Check)
unfolding check_cpu check_core check_memory check_disk check_partition check_sensor
    check_max_temperature check_pool check_raid dictionaries
evaluate_threshold_alerts metrics = do
  cpu ← check_cpu metrics
  cores ← each_at (txt "per_core_cpu") check_core metrics
  memory ← check_memory metrics
  disk ← check_disk metrics
  partitions ← each_at (txt "partitions") check_partition metrics
  sensors ← each_at (txt "temperatures") check_sensor metrics
  hottest ← check_max_temperature metrics
  pools ← each_at (txt "nas_pools") check_pool metrics
  raids ← each_at (txt "nas_raid") check_raid metrics
  ok (
      cpu
      ++ (cores
          ++ (memory ++ (disk ++ (partitions ++ (sensors ++ (hottest ++ (pools ++ raids))))))))

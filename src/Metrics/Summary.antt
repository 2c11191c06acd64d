-- ===== src/Metrics/Summary.antt =====
-- src/compactor/metrics.py: the record of a run as a dictionary, and the line that is written of it.
use data_lakehouse.Base.{
  ℕ, ◌+◌, ◌*◌, ◌^◌, ◌++◌, true, Option, none, some, List, [], ◌∷◌, Text, codes, ℤ, pos, pos_part,
  neg_part, ◌-ℤ◌, ltb_ℤ,
}
use data_lakehouse.Base.Doubles.{double_of, half_even}
use data_lakehouse.Exec.{Exec}
use data_lakehouse.Json.{
  Json, Value, Items, Fields, null, boolean, integer, floating, text, array, object, no_items, item,
  no_fields, field, Float, finite,
}
use data_lakehouse.Quality.Report.{Files, hundredths}
use data_lakehouse.Metrics.{
  Status, running, dry_run, error, partial_success, success, FailedPartition, Method,
  delta_optimize, zorder_inspired, PartitionCompactionMetrics, Detail, compacted, planned,
  CompactionRunMetrics, files_reduced,
}
use data_lakehouse.Metrics.Sizes.{format_bytes, format_bytes_mb}

abbrev number : ℕ → Value
number n = integer (pos n)

abbrev optional_text : Option Text → Value
optional_text none = null
optional_text (some t) = text t

-- `round(seconds, 3)`, of a duration in microseconds.
unfoldable pub rounded_seconds : ℤ → Float
unfolding double_of half_even ◌-ℤ◌
rounded_seconds duration =
    let seconds = double_of (pos_part duration + neg_part duration) 1000000 in
    let d = double_of (half_even (seconds.0 * 1000) (2 ^ seconds.1)) 1000 in
    finite (ltb_ℤ duration (pos 0)) d.0 (pos 0 -ℤ pos d.1)

abbrev optional_seconds : Option ℤ → Value
optional_seconds none = null
optional_seconds (some duration) = floating (rounded_seconds duration)

abbrev pub method_name : Method → Text
method_name delta_optimize = codes "delta_optimize"
method_name zorder_inspired = codes "zorder_inspired"

abbrev pub status_name : Status → Text
status_name running = codes "running"
status_name dry_run = codes "dry_run"
status_name error = codes "error"
status_name partial_success = codes "partial_success"
status_name success = codes "success"

-- The four sizes that both dictionaries have, before what follows them.
abbrev with_sizes : ℕ → ℕ → Fields → Fields
with_sizes before after rest = field (codes "bytes_before_human") (text (format_bytes before)) (
    field (codes "bytes_after_human") (text (format_bytes after)) (
      field (codes "bytes_before_mb") (floating (hundredths (format_bytes_mb before)))
        (field (codes "bytes_after_mb") (floating (hundredths (format_bytes_mb after))) rest)))

-- `PartitionCompactionMetrics.to_dict`; the status and the error have their defaults.
unfoldable pub partition_to_dict : PartitionCompactionMetrics → Fields
unfolding rounded_seconds format_bytes format_bytes_mb
partition_to_dict p = field (codes "partition_id") (text p.partition_id) (
    field (codes "files_before") (number p.files_before) (
      field (codes "files_after") (number p.files_after) (
        field (codes "bytes_before") (number p.bytes_before) (
          field (codes "bytes_after") (number p.bytes_after) (
            field (codes "duration_seconds") (floating (rounded_seconds p.duration)) (
              field (codes "method") (text (method_name p.method)) (
                field (codes "status") (text (codes "success")) (
                  field (codes "error") null
                    (with_sizes p.bytes_before p.bytes_after no_fields)))))))))

-- An entry of `partition_details`.
abbrev pub detail_to_dict : Detail → Fields
detail_to_dict (compacted p) = partition_to_dict p
detail_to_dict (planned id files est_after bytes) = field (codes "partition_id") (text id) (
    field (codes "files_before") (number files) (
      field (codes "files_after_est") (number est_after) (
        field (codes "bytes_before") (number bytes)
          (field (codes "dry_run") (boolean true) no_fields))))

abbrev failed_to_dict : FailedPartition → Fields
failed_to_dict f =
    field (codes "partition_id") (text f.partition_id)
      (field (codes "error") (text f.error) no_fields)

abbrev items_of : {A : Type 0} → (A → Fields) → List A → Items
items_of f [] = no_items
items_of f (x ∷ xs) = item (object (f x)) (items_of f xs)

-- `CompactionRunMetrics.to_dict`
unfoldable pub run_to_dict : CompactionRunMetrics → Fields
unfolding partition_to_dict files_reduced
run_to_dict m = field (codes "run_id") (text m.run_id) (
    field (codes "table_path") (text m.table_path) (
      field (codes "started_at") (text m.started_at) (
        field (codes "completed_at") (optional_text m.completed_at) (
          field (codes "compaction_duration_seconds") (optional_seconds m.compaction_duration) (
            field (codes "partitions_scanned") (number m.partitions_scanned) (
              field (codes "eligible_partitions") (integer m.eligible_partitions) (
                field (codes "skipped_partitions") (number m.skipped_partitions) (
                  field (codes "compacted_partitions") (number m.compacted_partitions) (
                    field (codes "lock_conflicts") (number m.lock_conflicts) (
                      field (codes "files_before") (number m.files_before) (
                        field (codes "files_after") (number m.files_after) (
                          field (codes "bytes_before") (number m.bytes_before) (
                            field (codes "bytes_after") (number m.bytes_after) (
                              field (codes "failed_partitions")
                                (array (items_of failed_to_dict m.failed_partitions))
                                (field (codes "partition_details")
                                  (array (items_of detail_to_dict m.partition_details))
                                  (field (codes "status") (text (status_name m.status)) (
                                    field (codes "error") (optional_text m.error) (
                                      with_sizes m.bytes_before m.bytes_after (
                                        field (codes "files_reduced") (integer (files_reduced m)) (
                                          field (codes "record_type")
                                            (text (codes "compaction_run_summary"))
                                            no_fields))))))))))))))))))))

-- `MetricsWriter.write_run_summary`; the directory is made when the writer is.
unfoldable pub write_run_summary :
    {W : Type 0} → Files W → Json → Text → CompactionRunMetrics → Exec W (Unit {0})
unfolding run_to_dict
write_run_summary files json path m =
    files.append_text path (json.dumps (object (run_to_dict m)) ++ codes "\n")

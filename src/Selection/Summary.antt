-- ===== src/Selection/Summary.antt =====
-- src/compactor/partition_selection.py: the policy as the log shows it.
use data_lakehouse.Base.{◌+◌, ◌^◌, ◌∷◌, ◌++◌, Text, codes, ℤ, pos, negsuc, leb, if◌then◌else◌}
use data_lakehouse.Base.Doubles.{half_even}
use data_lakehouse.Base.Strings.Decimal.{decimal}
use data_lakehouse.Json.{Fields, no_fields, field, integer, text}
use data_lakehouse.Selection.{PartitionSelectionPolicy}

-- `_bytes_label`
unfoldable pub bytes_label : ℤ → Text
unfolding decimal half_even
bytes_label (pos n) =
    if leb (2 ^ 20) n
    then decimal (half_even n (2 ^ 20)) ++ codes " MB"
    else decimal n ++ codes " B"
bytes_label (negsuc n) = b'-' ∷ (decimal (n + 1) ++ codes " B")

unfoldable pub selection_summary : PartitionSelectionPolicy → Fields
unfolding bytes_label
selection_summary policy =
    field (codes "partition_age_skip_minutes") (integer policy.partition_age_skip_minutes) (
      field (codes "small_file_threshold_bytes") (integer policy.small_file_threshold_bytes) (
        field (codes "small_file_count_threshold") (integer policy.small_file_count_threshold) (
          field (codes "partition_file_count_threshold")
            (integer policy.partition_file_count_threshold)
            (field (codes "small_file_threshold_human")
              (text (bytes_label policy.small_file_threshold_bytes)) no_fields))))

-- ===== src/Quality/Report.antt =====
-- src/streaming/data_quality.py and quality_metrics.py: a line of the file of quality metrics.
use data_lakehouse.Base.{ℕ, ◌++◌, Text, codes, ◌-ℤ◌, pos, false}
use data_lakehouse.Base.Doubles.{double_of}
use data_lakehouse.Exec.{Exec, ◌>>◌}
use data_lakehouse.Json.{
  Json, Value, Fields, no_fields, field, integer, floating, text, object, Float, finite,
}
use data_lakehouse.Quality.{QualityMetrics, total_record_count}
use data_lakehouse.Quality.Percent.{bad_record_percentage}

-- The double next to a number of hundredths.
abbrev pub hundredths : ℕ → Float
hundredths n = let d = double_of n 100 in finite false d.0 (pos 0 -ℤ pos d.1)

abbrev number : ℕ → Value
number n = integer (pos n)

unfoldable pub to_dict : QualityMetrics → Fields
unfolding bad_record_percentage total_record_count double_of ◌-ℤ◌
to_dict m = field (codes "record_type") (text (codes "quality_metrics")) (
    field (codes "batch_id") (number m.batch_id) (
      field (codes "timestamp") (text m.timestamp) (
        field (codes "valid_record_count") (number m.valid_record_count) (
          field (codes "bad_record_count") (number m.bad_record_count) (
            field (codes "bad_record_percentage") (floating (hundredths (bad_record_percentage m)))
              (field (codes "total_record_count") (number (total_record_count m)) no_fields))))))

-- `pathlib` and `open`: the directory above a file is made, with those above it, and a text is added to the end
-- of the file.
pub record Files (W : Type 0) : Type 0 where
  pub make_parent : Text → Exec W (Unit {0})
  pub append_text : Text → Text → Exec W (Unit {0})

abbrev pub line : Json → QualityMetrics → Text
line json m = json.dumps (object (to_dict m)) ++ codes "\n"

unfoldable pub write_quality_metrics :
    {W : Type 0} → Files W → Json → QualityMetrics → Text → Exec W (Unit {0})
unfolding to_dict
write_quality_metrics files json m path =
    files.make_parent path >> files.append_text path (line json m)

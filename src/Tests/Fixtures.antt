-- ===== src/Tests/Fixtures.antt =====
-- A listing of two pages, and a world in which Spark fails to optimize and overwrites well.
use data_lakehouse.Base.{ℕ, true, false, none, some, List, [], ◌∷◌, Text, codes, pos}
use data_lakehouse.Errors.{ok, raise, other}
use data_lakehouse.Time.{aware}
use data_lakehouse.Config.{Config, default_config}
use data_lakehouse.Scanner.{PartitionStats, ParquetFileInfo}
use data_lakehouse.Scanner.Scan.{S3Object, Page, Listing}
use data_lakehouse.Spark.{Spark}
use data_lakehouse.Daemon.{World}
use data_lakehouse.Daemon.Kept.{Leaves}
use data_lakehouse.Daemon.Untouched.{Reads}
use data_lakehouse.Daemon.Locking.{locks}
use data_lakehouse.Tests.World.{codec, Bucket, peek, s3, clock}

abbrev pub object : Text → ℕ → S3Object
object key size = record { key = key; size = size; last_modified = aware (pos 0) }

abbrev pub first_file : S3Object
first_file = object (codes "raw/events/event_date=2026-06-11/event_hour=10/a.parquet") 100

abbrev pub second_file : S3Object
second_file = object (codes "raw/events/event_date=2026-06-11/event_hour=9/b.parquet") 50

abbrev pub third_file : S3Object
third_file = object (codes "raw/events/event_date=2026-06-11/event_hour=10/c.parquet") 7

abbrev pub log_file : S3Object
log_file = object (codes "raw/events/_delta_log/00.json") 3

abbrev pub pages : List Page
pages = some (first_file ∷ log_file ∷ second_file ∷ []) ∷ none ∷ some (third_file ∷ []) ∷ []

abbrev pub file : Text → ℕ → ParquetFileInfo
file key size = record { key = key; size_bytes = size; last_modified = aware (pos 0) }

abbrev pub partition : ℕ → PartitionStats
partition hour = record {
  event_date = codes "2026-06-11";
  event_hour = hour;
  files = file (codes "a.parquet") 100 ∷ file (codes "c.parquet") 7 ∷ [];
}

abbrev pub listing : Listing Bucket
listing = record { key_count = λ b p w. (ok 1, w); paginate = λ b p w. (ok pages, w) }

abbrev pub spark : Spark Bucket
spark = record {
  get_or_create = λ c w. (ok tt, w);
  stop = λ w. (ok tt, w);
  sql = λ q w. (raise (other (codes "no OPTIMIZE")), w);
  reads_nothing = λ p c w. (ok false, w);
  overwrite = λ p c n cs w. (ok tt, w);
}

abbrev pub env : World Bucket
env = record {
  clock = clock;
  timer = clock;
  new_id = λ w. (codes "run1", w);
  hostname = codes "host";
  new_suffix = λ w. (codes "0a1b", w);
  listing = listing;
  store = s3;
  codec = codec;
  spark = spark;
  make_directory = λ p w. (ok tt, w);
  append_line = λ p m w. (ok tt, w);
}

abbrev pub optimizing : Config
optimizing = record default_config { use_delta_optimize = true }

pub env-Leaves : Leaves (locks peek optimizing) clock listing spark
env-Leaves = record {
  timer_kept = λ v w h. h;
  paginate_kept = λ b p v w h. h;
  sql_kept = λ q v w h. h;
  reads_nothing_kept = λ p c v w h. h;
  overwrite_kept = λ p c n cs v w h. h;
}

pub env-Reads : Reads (locks peek optimizing) env
env-Reads = record {
  clock_kept = λ v w h. h;
  new_id_kept = λ v w h. h;
  key_count_kept = λ b p v w h. h;
  paginate_kept = λ b p v w h. h;
  make_directory_kept = λ p v w h. h;
}

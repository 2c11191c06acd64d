-- ===== src/Config.antt =====
-- src/compactor/config.py: the settings, and what is derived from them.
use data_lakehouse.Base.{ℕ, ◌*◌, Bool, true, false, none, some, [], ◌∷◌, ◌==◌, not}
use data_lakehouse.Base.{ℤ, pos, Text, codes}
use data_lakehouse.Base.Strings.Affix.{strip_prefix, rstrip, span}

-- `CompactionConfig`, without the two sizes in MB that only the loading of the settings reads.
pub record Config : Type 0 where
  pub minio_endpoint : Text
  pub minio_root_user : Text
  pub minio_root_password : Text
  pub minio_bucket : Text
  pub delta_table_path : Text
  pub delta_checkpoint_path : Text
  pub spark_master : Text
  pub spark_app_name : Text
  pub compaction_interval_seconds : ℤ
  pub small_file_threshold_bytes : ℤ
  pub small_file_count_threshold : ℤ
  pub partition_file_count_threshold : ℤ
  pub target_file_size_bytes : ℤ
  pub partition_age_skip_minutes : ℤ
  pub lock_timeout_seconds : ℤ
  pub lock_base_path : Text
  pub use_delta_optimize : Bool
  pub metrics_path : Text
  pub log_level : Text
  pub log_json_format : Bool

-- The defaults of the fields.
abbrev pub default_config : Config
default_config = record {
  minio_endpoint = codes "http://localhost:9000";
  minio_root_user = codes "minioadmin";
  minio_root_password = codes "minioadmin";
  minio_bucket = codes "lakehouse";
  delta_table_path = codes "s3a://lakehouse/raw/events";
  delta_checkpoint_path = codes "s3a://lakehouse/checkpoints/raw_events";
  spark_master = codes "local[*]";
  spark_app_name = codes "lakehouse-compaction";
  compaction_interval_seconds = pos 3600;
  small_file_threshold_bytes = pos (32 * 1024 * 1024);
  small_file_count_threshold = pos 20;
  partition_file_count_threshold = pos 100;
  target_file_size_bytes = pos (128 * 1024 * 1024);
  partition_age_skip_minutes = pos 30;
  lock_timeout_seconds = pos 3600;
  lock_base_path = codes "locks/compaction";
  use_delta_optimize = false;
  metrics_path = codes "logs/compaction_metrics.jsonl";
  log_level = codes "INFO";
  log_json_format = true;
}

-- The path without its scheme: the first of the two that it starts with.
unfoldable pub without_scheme : Text → Text
unfolding strip_prefix
without_scheme path = elim (strip_prefix (codes "s3a://") path) [
  | some rest ↦ rest
  | none ↦ elim (strip_prefix (codes "s3://") path) [ some rest ↦ rest | none ↦ path ]
]

abbrev pub slash : ℕ
slash = b'/'

abbrev pub is_not_slash : ℕ → Bool
is_not_slash c = not (c == b'/')

-- What follows the first slash, if there is one: `path.split("/", 1)`.
abbrev after_bucket : Text → Text × Text → Text
after_bucket path (bucket, []) = path
after_bucket path (bucket, (c ∷ key_prefix)) = key_prefix

unfoldable pub table_key_prefix : Config → Text
unfolding without_scheme span rstrip
table_key_prefix config =
    let path = without_scheme config.delta_table_path in
    rstrip slash (after_bucket path (span is_not_slash path))

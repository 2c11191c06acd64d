-- ===== src/Tests/Selecting.antt =====
-- The selection's and the compactor's theorems at a few partitions.
use data_lakehouse.Base.{◌≡◌, refl, some, List, [], ◌∷◌, ℤ, pos, map, All, keep_if}
use data_lakehouse.Errors.{ok}
use data_lakehouse.Time.{aware}
use data_lakehouse.Config.{default_config}
use data_lakehouse.Scanner.{PartitionStats}
use data_lakehouse.Selection.{from_config, select_partitions}
use data_lakehouse.Selection.Laws.{
  chosen, rejected, with_verdict, select_partitions-verdict, Split, IsSkipped,
  select_partitions-Split,
}
use data_lakehouse.Compactor.{compact_partition}
use data_lakehouse.Compactor.Outcomes.{Outcome, compact_partition-Outcome}
use data_lakehouse.Tests.World.{clock, empty_bucket}
use data_lakehouse.Tests.Fixtures.{partition, listing, spark, optimizing}

abbrev hour_later : ℤ
hour_later = pos 3600000000

abbrev two_partitions : List PartitionStats
two_partitions = partition 9 ∷ partition 10 ∷ []

select_partitions-verdict_example :
    select_partitions clock two_partitions
      (from_config default_config)
      (some (aware hour_later))
      empty_bucket
    ≡ (
      ok (
        keep_if (chosen (from_config default_config) hour_later) two_partitions,
        map
            (with_verdict (from_config default_config) hour_later)
            (keep_if (rejected (from_config default_config) hour_later) two_partitions),
      ),
      empty_bucket,
    )
select_partitions-verdict_example =
    select_partitions-verdict clock (from_config default_config) hour_later two_partitions
      empty_bucket ((refl, (refl, tt)), ((refl, (refl, tt)), tt))

select_partitions-Split_example :
    let policy = from_config default_config in
    let skipped =
      map (with_verdict policy hour_later) (keep_if (rejected policy hour_later) two_partitions) in
    Split two_partitions
      (keep_if (chosen policy hour_later) two_partitions)
      (map (λ r. r.stats) skipped)
    × All IsSkipped skipped
select_partitions-Split_example =
    select_partitions-Split clock (from_config default_config) two_partitions
      (some (aware hour_later)) empty_bucket
      (keep_if (chosen (from_config default_config) hour_later) two_partitions)
      (map (with_verdict (from_config default_config) hour_later)
        (keep_if (rejected (from_config default_config) hour_later) two_partitions))
      empty_bucket
      (select_partitions-verdict clock (from_config default_config) hour_later two_partitions
        empty_bucket ((refl, (refl, tt)), ((refl, (refl, tt)), tt)))

compact_partition-Outcome_example :
    Outcome optimizing
      (partition 10)
      (compact_partition clock listing spark optimizing (partition 10) empty_bucket).0
compact_partition-Outcome_example =
    compact_partition-Outcome clock listing spark optimizing (partition 10) empty_bucket

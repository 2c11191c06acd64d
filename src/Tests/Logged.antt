-- ===== src/Tests/Logged.antt =====
-- The theorem on lines of the log, at one line.
use data_lakehouse.Base.{◌≡◌, refl, none, some, Text, codes, pos, text_dec, ℕ_discrete}
use data_lakehouse.Errors.{ok}
use data_lakehouse.Json.{Fields, no_fields, field, text, object}
use data_lakehouse.Logging.{format, event_record, standard}
use data_lakehouse.Logging.Lookup.{lookup, logged, format-event_record}
use data_lakehouse.Tests.World.{codec}
use data_lakehouse.Tests.Encoding.{json, json-IsFaithful}

-- A caller that gives a time as a field.
abbrev given : Fields
given =
    field (codes "partition") (text (codes "p1"))
      (field (codes "timestamp") (text (codes "mine")) no_fields)

format-event_record_example :
    (line : Fields) × (json.loads (
        format codec json
          (pos 5)
          (event_record codec json (codes "daemon") (codes "INFO") (codes "start") none given))
      ≡ ok (object line))
    × ((key : Text)
        → lookup key line
          ≡ logged key (codes "start") given (
              standard codec json (pos 5) (
                event_record codec json
                  (codes "daemon")
                  (codes "INFO")
                  (codes "start")
                  none
                  given)))
format-event_record_example =
    format-event_record codec json (pos 5) (codes "daemon") (codes "INFO") (codes "start") none
      given json-IsFaithful

-- The field hides the time of the line.
hidden : logged (codes "timestamp") (codes "start") given no_fields ≡ some (text (codes "mine"))
unfolding text_dec ℕ_discrete
hidden = refl

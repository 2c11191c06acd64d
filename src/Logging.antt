-- ===== src/Logging.antt =====
-- src/utils/logging_config.py: a line of the log in JSON, and `log_event`.
pub mod Lookup
use data_lakehouse.Base.{
  Bool, true, false, Option, none, some, Text, codes, text_eq, if◌then◌else◌, List, [], ◌∷◌, ℤ, ℕ,
}
use data_lakehouse.Base.Strings.Affix.{is_empty}
use data_lakehouse.Base.Strings.Replace.{replace, zulu, offset}
use data_lakehouse.Time.{aware}
use data_lakehouse.Codec.{Codec}
use data_lakehouse.Json.{Json, Value, Fields, no_fields, field, text, object}

-- The parts of a `logging.LogRecord` that the formatter reads; the level by its name, and the exception as
-- `formatException` writes it.
pub record LogRecord : Type 0 where
  pub levelname : Text
  pub name : Text
  pub message : Text
  pub structured_fields : Option Fields
  pub exception : Option Text

-- `d[key] = value`: in the place of the key, or at the end.
unfoldable pub set : Text → Value → Fields → Fields
set key v no_fields = field key v no_fields
set key v (field k w fs) =
    let rest = set key v fs in if text_eq k key then field k v fs else field k w rest

-- `d.update(other)`
unfoldable pub update : Fields → Fields → Fields
unfolding set
update d no_fields = d
update d (field k v fs) = update (set k v d) fs

abbrev pub with_fields : Fields → Option Fields → Fields
with_fields payload none = payload
with_fields payload (some fs) = update payload fs

abbrev pub with_exception : Fields → Option Text → Fields
with_exception payload none = payload
with_exception payload (some t) = set (codes "exception") (text t) payload

module _ (codec : Codec) (json : Json) where
  -- The fields that every line has, at the time of `datetime.now(UTC)`.
  abbrev pub standard : ℤ → LogRecord → Fields
  standard now r =
      field (codes "timestamp") (text (replace offset zulu (codec.isoformat (aware now)))) (
        field (codes "level") (text r.levelname) (
          field (codes "logger") (text r.name)
            (field (codes "message") (text r.message) no_fields)))

  -- `JsonFormatter.format`
  unfoldable pub format : ℤ → LogRecord → Text
  unfolding set update replace
  format now r =
      json.dumps
        (object (with_exception (with_fields (standard now r) r.structured_fields) r.exception))

  -- `message or event`
  abbrev pub message_or : Option Text → Text → Text
  message_or none event = event
  message_or (some t) event = if is_empty t then event else t

  -- The record that `log_event` hands to its logger, for the name of the logger and of the level. The
  -- fields are those that a caller can give by name: `message`, `level`, `event` and `logger` are
  -- parameters of `log_event` itself and never among them.
  abbrev pub event_record : Text → Text → Text → Option Text → Fields → LogRecord
  event_record logger level event message fs = record {
    levelname = level;
    name = logger;
    message = message_or message event;
    structured_fields = some (field (codes "event") (text event) fs);
    exception = none;
  }

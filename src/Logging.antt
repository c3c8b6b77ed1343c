-- ===== src/Logging.antt =====
-- gaia_server/logging_config.py. The module logging is a parameter, and so are the clock's text and
-- json.
use gaia_server.Base.{
  ℕ, String, Option, none, some, List, [], ◌∷◌, or_else, if◌then◌else◌, Result, ok, err, Exec,
}
use gaia_server.Base.Text.{codes, uppered, lowered, equal_bytes}
use gaia_server.Dict.{Dict, get_or}
use gaia_server.Errors.{Exn}

-- The module logging: `A` is the type of its attributes, which stand under their names (lists of
-- code points), and `check_level` is what `setLevel` makes of one.
pub record LoggingModule (A : Type 0) : Type 0 where
  pub attribute : List ℕ → Option A
  pub info : A
  pub check_level : A → Result Exn ℕ

-- The formatter of a handler to the standard output: a format with a date format, or _JsonFormatter.
pub data Formatter : Type 0 where
  text_formatter : String → String → Formatter
  json_formatter : Formatter

pub record RootLogger : Type 0 where
  pub level : ℕ
  pub handlers : List Formatter

-- The handler that the environment asks for.
unfoldable pub formatter_of : Dict String → Formatter
formatter_of env =
    if equal_bytes (lowered (codes (get_or "LOG_FORMAT" "json" env))) (codes "text")
    then text_formatter "%(asctime)s %(levelname)-8s %(name)s %(message)s" "%Y-%m-%dT%H:%M:%S"
    else json_formatter

-- `setLevel` raises before the handlers are touched.
abbrev pub with_level : Result Exn ℕ → Formatter → RootLogger → Result Exn (Unit {0}) × RootLogger
with_level (err e) formatter root = (err e, root)
with_level (ok n) formatter root = (ok tt, record { level = n; handlers = formatter ∷ [] })

-- The attribute of module logging under the text of LOG_LEVEL in upper case, or else INFO.
unfoldable pub level_of : {A : Type 0} → LoggingModule A → Dict String → A
level_of logging env =
    or_else logging.info (logging.attribute (uppered (codes (get_or "LOG_LEVEL" "INFO" env))))

unfoldable pub configure_logging :
    {A : Type 0} → LoggingModule A → Dict String → Exec Exn RootLogger (Unit {0})
configure_logging logging env root =
    with_level (logging.check_level (level_of logging env)) (formatter_of env) root

-- logging.LogRecord: the parts that the formatter reads. `created` is written in ISO format.
pub record LogRecord : Type 0 where
  pub created : String
  pub levelname : String
  pub name : String
  pub message : String
  pub exc_info : Option String

abbrev pub exc_entry : Option String → Dict String
exc_entry none = []
exc_entry (some text) = ("exc", text) ∷ []

-- `_JsonFormatter.format`, up to the call of json.dumps.
unfoldable pub payload_of : LogRecord → Dict String
payload_of r =
    ("ts", r.created)
    ∷ ("level", r.levelname)
    ∷ ("logger", r.name)
    ∷ ("msg", r.message)
    ∷ exc_entry r.exc_info

unfoldable pub format : (Dict String → String) → LogRecord → String
format dumps r = dumps (payload_of r)

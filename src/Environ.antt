-- ===== src/Environ.antt =====
-- os.environ as the settings read it (gaia_server/storage/settings.py and
-- gaia_server/inference/settings.py): a dict of texts, of which some are read as integers.
use gaia_server.Base.{String, Option, none, some, Result, err}
use gaia_server.Base.Numbers.{ℤ, int}
use gaia_server.Base.Text.{codes}
use gaia_server.Dict.{Dict, get_or}
use gaia_server.Errors.{Exn, value_error}

-- `int(os.environ.get(name, default))`, or `none` where it raises.
abbrev pub int_var : String → String → Dict String → Option ℤ
int_var name default env = int (codes (get_or name default env))

-- What follows the reading of a number; the conversion raises ValueError.
abbrev pub with_int : {A : Type 0} → Option ℤ → (ℤ → Result Exn A) → Result Exn A
with_int none f = err value_error
with_int (some n) f = f n

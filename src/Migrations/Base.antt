-- ===== src/Migrations/Base.antt =====
-- `Migration` and `Result` of apps/utils/ops_migrations/base.py.
use greffer.Prelude.Int.{ℤ, pos}
use greffer.Prelude.{
  String, Bool, true, Option, none, some, List, [], ◌∷◌, ◌!=◌, nat_eq, string_eq, Dict,
}

-- What `int(v)` does: it gives a number, raises TypeError or ValueError, or raises OverflowError, as
-- it does for an infinite float.
pub data IntRead : Type 0 where
  number : ℤ → IntRead
  malformed overflows : IntRead

-- A Python value, by what the runner asks of it: its truth, `int(v)`, and `list(v)`, which is `none`
-- where Python raises TypeError or ValueError.
pub record Value : Type 0 where
  pub truthy : Bool
  pub to_int : IntRead
  pub to_list : Option (List String)

abbrev pub truth : Value
truth = record { truthy = true; to_int = number (pos 1); to_list = none }

chars : String → List String
chars String.[] = []
chars (String.◌∷◌ c s) = (String.◌∷◌ c String.[]) ∷ chars s

-- A text that is no numeral.
unfoldable pub text_value : String → Value
unfolding chars
text_value s = record { truthy = s != ""; to_int = malformed; to_list = some (chars s) }

-- The summary dict of a migration.
abbrev pub Summary : Type 0
Summary = Dict String Value

-- The `error` texts of a result.
pub data Failure : Type 0 where
  raised : String → Failure
  not_a_summary : Failure
  malformed_backups : Failure
  malformed_errors : Value → Failure
  item_errors : ℤ → Failure

pub record Result : Type 0 where
  pub id : String
  pub ok : Bool
  pub summary : Summary
  pub error : Option Failure
  pub duration_seconds : ℤ

-- What `run` does: it raises, or returns a falsy value, a dict or another value.
pub data Outcome : Type 0 where
  raises : String → Outcome
  falsy : Outcome
  summary_dict : Summary → Outcome
  other_value : Outcome

-- A migration over the state `W` of the disk and of docker. A body that raises leaves what it
-- had changed.
pub record Migration (W : Type 0) : Type 0 where
  pub id : String
  pub description : String
  pub stop_on_failure : Bool
  pub advisory : Bool
  -- The hook: `some` is the exception that it raises.
  pub check_preconditions : W → Option String × W
  pub run : W → Outcome × W

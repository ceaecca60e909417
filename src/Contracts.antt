-- ===== src/Contracts.antt =====
-- packages/python_common/src/mvp_common/contracts.py: the values that the services exchange.
-- The field constraints of pydantic (lengths, patterns) are that library's and are not modelled.
use mvp_master.Base.{ℕ, String, Bool, Option, List}

-- A `UUID` is compared by its 128-bit integer.
abbrev pub Uuid : Type 0
Uuid = ℕ

-- A `datetime`, as the count of its smallest units; only compared and stored.
abbrev pub Time : Type 0
Time = ℕ

-- A value of a `details`, `metadata` or `data` dict. `uuid` is the text `str(u)` of a UUID.
pub data Value : Type 0 where
  text : String → Value
  uuid : Uuid → Value
  int : ℕ → Value
  flag : Bool → Value
  texts : List String → Value

abbrev pub Details : Type 0
Details = List (String × Value)

pub record SecretReference : Type 0 where
  pub store : String
  pub namespace : String
  pub key : String
  pub version : Option String

pub record ExternalReference : Type 0 where
  pub provider : String
  pub account_id : String
  pub repository : Option String
  pub resource_type : String
  pub external_id : String

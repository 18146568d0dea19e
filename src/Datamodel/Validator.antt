-- ===== src/Datamodel/Validator.antt =====
-- internal/datamodel/validator.go: values against the XSD type of their parameter. `time.Parse` is an argument.
mod Tests
use helix_acs.Prelude.{
  String, Bool, true, false, ◌||◌, List, [], ◌∷◌, Option, none, some, if◌then◌else◌, str_eq, any,
}
use helix_acs.Text.Numbers.{Parsed, number, out_of_range, not_a_number, atoi, parse_uint}

-- The errors, without their texts.
pub data ValidationError : Type 0 where
  invalid_boolean invalid_unsigned_int invalid_int invalid_date_time : ValidationError

abbrev pub iso8601_formats : List String
iso8601_formats =
    "2006-01-02T15:04:05Z07:00" ∷ "2006-01-02T15:04:05.999999999Z07:00" ∷ "2006-01-02T15:04:05"
    ∷ "2006-01-02T15:04:05Z" ∷ "2006-01-02" ∷ []

abbrev pub is_number : Parsed → Bool
is_number (number z) = true
is_number (out_of_range z) = false
is_number not_a_number = false

abbrev pub error_unless : ValidationError → Bool → Option ValidationError
error_unless e ok = if ok then none else some e

abbrev pub is_boolean : String → Bool
is_boolean value = any (λ v. str_eq value v) ("0" ∷ "1" ∷ "true" ∷ "false" ∷ [])

-- `parses layout value` tells whether `time.Parse` gives no error.
abbrev pub is_date_time : (String → String → Bool) → String → Bool
is_date_time parses value =
    str_eq value "0001-01-01T00:00:00Z"
    || str_eq value "0001-01-01T00:00:00"
    || any (λ layout. parses layout value) iso8601_formats

-- A type that is not known accepts every value.
unfoldable pub validate_type : (String → String → Bool) → String → String → Option ValidationError
validate_type parses xsd_type value =
    if str_eq xsd_type "xsd:boolean"
    then error_unless invalid_boolean (is_boolean value)
    else if str_eq xsd_type "xsd:unsignedInt"
    then error_unless invalid_unsigned_int (is_number (parse_uint value))
    else if str_eq xsd_type "xsd:int"
    then error_unless invalid_int (is_number (atoi value))
    else if str_eq xsd_type "xsd:dateTime"
    then error_unless invalid_date_time (is_date_time parses value)
    else none

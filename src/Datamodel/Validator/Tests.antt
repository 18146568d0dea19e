-- ===== src/Datamodel/Validator/Tests.antt =====
-- Values at the limits.
use helix_acs.Prelude.{◌≡◌, refl, String, Bool, false, none, some}
use helix_acs.Text.Numbers.{atoi, parse_uint}
use helix_acs.Datamodel.Validator.{
  invalid_boolean, invalid_unsigned_int, invalid_int, invalid_date_time, validate_type,
}

abbrev never : String → String → Bool
never layout value = false

largest :
    (validate_type never "xsd:unsignedInt" "18446744073709551615" ≡ none)
    × (validate_type never "xsd:unsignedInt" "18446744073709551616" ≡ some invalid_unsigned_int)
    × (validate_type never "xsd:int" "-9223372036854775808" ≡ none)
    × (validate_type never "xsd:int" "9223372036854775808" ≡ some invalid_int)
unfolding validate_type atoi parse_uint
largest = (refl, refl, refl, refl)

others :
    (validate_type never "xsd:boolean" "True" ≡ some invalid_boolean)
    × (validate_type never "xsd:unsignedInt" "+1" ≡ some invalid_unsigned_int)
    × (validate_type never "xsd:dateTime" "0001-01-01T00:00:00Z" ≡ none)
    × (validate_type never "xsd:dateTime" "now" ≡ some invalid_date_time)
    × (validate_type never "xsd:hexBinary" "!" ≡ none)
unfolding validate_type atoi parse_uint
others = (refl, refl, refl, refl, refl)

-- ===== src/Schema/Resolver.antt =====
-- `Resolver.Resolve` of internal/schema/resolver.go.
use helix_acs.Prelude.{String, List, Option, some, if◌then◌else◌, str_eq, not, ◌&&◌, ◌>>=◌}
use helix_acs.Text.{◌+++◌}
use helix_acs.Schema.Registry.{Registry, has}
use helix_acs.Schema.Vendor.{normalise_vendor}

unfoldable pub vendor_schema : String → String → String
vendor_schema vendor data_model = "vendor/" +++ (vendor +++ ("/" +++ data_model))

-- `none` is the panic of `normalise_vendor`, whose iteration order is the first argument.
unfoldable pub resolve : List String → Registry → String → String → Option String
unfolding vendor_schema
resolve order registry manufacturer data_model = do
  vendor ← normalise_vendor order manufacturer
  let candidate = vendor_schema vendor data_model
  let generic = if str_eq data_model "" then "tr098" else data_model
  some (if not (str_eq vendor "") && has registry candidate then candidate else generic)

-- ===== src/Schema/Mapper/Tests.antt =====
-- The theorem on placeholders of a mapper at a concrete input.
use helix_acs.Prelude.{◌≡◌, refl, [], ◌∷◌, All}
use helix_acs.Text.{◌+++◌, itoa}
use helix_acs.Dict.{find}
use helix_acs.Datamodel.Model.{tr181, index_or, band_index_or}
use helix_acs.Datamodel.Tests.{instances}
use helix_acs.Schema.Mapper.{
  SchemaMapper, placeholders, substitute, resolve_path, safe_int, safe_idx,
}
use helix_acs.Schema.Mapper.Substitution.{
  Becomes, banded, single, nth_or, discovered_or, substitute-placeholders,
}

abbrev sample_mapper : SchemaMapper
sample_mapper = record {
  params = ("wan.mtu", "Device.IP.Interface.{wan}.MaxMTUSize") ∷ [];
  instance_map = instances 4 [];
  model_type = tr181;
}

resolve_path_run : resolve_path sample_mapper "wan.mtu" ≡ "Device.IP.Interface.4.MaxMTUSize"
unfolding resolve_path substitute placeholders safe_idx safe_int index_or band_index_or itoa find
resolve_path_run = refl

substitute-placeholders_example :
    All
      (λ e.
        Becomes sample_mapper ("{" +++ (e.0 +++ "_0}")) (nth_or e.1 0 1)
        × Becomes sample_mapper ("{" +++ (e.0 +++ "_1}")) (nth_or e.1 1 2))
      (banded (instances 4 []))
    × All
        (λ e. Becomes sample_mapper ("{" +++ (e.0 +++ "}")) (discovered_or e.1 e.2))
        (single (instances 4 []))
substitute-placeholders_example = substitute-placeholders sample_mapper

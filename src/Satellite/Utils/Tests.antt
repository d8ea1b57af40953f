-- ===== src/Satellite/Utils/Tests.antt =====
-- The helpers on texts at concrete inputs.
use harbor_satellite.Common.{◌≡◌, refl, some}
use harbor_satellite.Satellite.Utils.{
  trim_prefix, strip, split, cut, join, format_registry_url,
  get_repository_and_image_name_from_artifact,
}

format_registry_url_https : format_registry_url "https://harbor.example" ≡ "harbor.example"
unfolding format_registry_url trim_prefix strip
format_registry_url_https = refl

cut_nested :
    get_repository_and_image_name_from_artifact "library/tools/nginx"
    ≡ some ("library", "tools/nginx")
unfolding get_repository_and_image_name_from_artifact split cut join
cut_nested = refl

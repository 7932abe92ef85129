-- ===== src/Tests/Startup.antt =====
-- The settings of a production and of a development, as the program reads them.
use smart_auth_with_kubernat.Prelude.{
  String, true, false, Option, none, some, [], ◌∷◌, inl, ◌≡◌, ◌↔◌, refl, ◌==◌, string_eq,
  if◌then◌else◌,
}
use smart_auth_with_kubernat.Prelude.Texts.{lower, strip}
use smart_auth_with_kubernat.Prelude.Splits.{free, split, contains, strip_end}
use smart_auth_with_kubernat.Config.{Settings}
use smart_auth_with_kubernat.Config.Csv.{IsItem, AreItems, no_items, item_then, join, parse-join}
use smart_auth_with_kubernat.Config.Production.{IsHardened, load_iff}
use smart_auth_with_kubernat.Config.Validators.{
  Url, validate_production_configuration, strip_trailing_slash, stripped, parse_csv_list,
  normalized, load,
}
use smart_auth_with_kubernat.Exec.{ok}
use smart_auth_with_kubernat.Tests.Memory.{sample_settings}

abbrev urlparse : String → Option Url
urlparse url =
    if url == "https://auth.example.org"
    then some (record {
      scheme = "https";
      netloc = "auth.example.org";
      hostname = some "auth.example.org";
    })
    else none

abbrev read : Settings
read = record sample_settings {
  app_env = "Production";
  debug = false;
  secret_key = "0123456789abcdef0123456789abcdef0123456789abcdef0123456789abcdef";
  database_url = "postgresql+asyncpg://auth:auth@db:5432/smart_auth";
  public_backend_url = "https://auth.example.org/";
  trust_proxy_headers = true;
}

abbrev settings : Settings
settings = normalized read (inl "https://example.org") (inl " 10.0.0.0/8 ,, 192.168.0.0/16")

load_iff_example :
    (load urlparse read (inl "https://example.org") (inl " 10.0.0.0/8 ,, 192.168.0.0/16")
      ≡ ok settings)
    ↔ ((settings ≡ settings)
        × (lower settings.app_env ≡ "production" → IsHardened urlparse settings))
load_iff_example =
    load_iff urlparse read settings (inl "https://example.org")
      (inl " 10.0.0.0/8 ,, 192.168.0.0/16")

-- these are accepted
load_test :
    load urlparse read (inl "https://example.org") (inl " 10.0.0.0/8 ,, 192.168.0.0/16")
    ≡ ok settings
unfolding load validate_production_configuration strip_trailing_slash parse_csv_list split strip
    stripped lower contains strip_end
load_test = refl

first-IsItem : IsItem "10.0.0.0/8"
unfolding strip free
first-IsItem = record { not_empty = λ h. cc; trimmed = refl; comma_free = refl }

second-IsItem : IsItem "192.168.0.0/16"
unfolding strip free
second-IsItem = record { not_empty = λ h. cc; trimmed = refl; comma_free = refl }

two_networks-AreItems : AreItems ("10.0.0.0/8" ∷ "192.168.0.0/16" ∷ [])
two_networks-AreItems = item_then _ _ first-IsItem (item_then _ _ second-IsItem no_items)

parse-join_example :
    parse_csv_list (inl (join ("10.0.0.0/8" ∷ "192.168.0.0/16" ∷ [])))
    ≡ "10.0.0.0/8" ∷ "192.168.0.0/16" ∷ []
parse-join_example = parse-join ("10.0.0.0/8" ∷ "192.168.0.0/16" ∷ []) two_networks-AreItems

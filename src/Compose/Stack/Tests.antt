-- ===== src/Compose/Stack/Tests.antt =====
-- Deployments of a stack of two services.
use text.Mathlib.Text.{◌==◌ as str_eq}
use deploy_monster.Prelude.{
  ℕ, ◌≡◌, refl, ◌*◌, Bool, true, List, [], ◌∷◌, Option, none, some, String, ◌⊎◌, inl, inr,
  if◌then◌else◌,
}
use deploy_monster.Prelude.Int.{ℤ, pos}
use deploy_monster.Prelude.Bytes.{bytes, has_suffix}
use deploy_monster.Compose.{ServiceConfig, items, blank, names, deps}
use deploy_monster.Compose.Order.{Orders}
use deploy_monster.Compose.Stack.{DeployOpts, Numbers, label_name, parse_memory}
use deploy_monster.Compose.Stack.Deploying.{
  Call, Runtime, DeployError, service_failed, not_created, deploy,
}
use deploy_monster.Compose.Stack.Progress.{Outcome, containers}
use deploy_monster.Compose.Stack.Cleanup.{deploy_starts_or_rolls_back}

abbrev whole_numbers : Numbers
whole_numbers = record {
  Float = ℕ;
  scan_float = λ s. some 2;
  scan_int = λ s. some (pos 512);
  scaled = λ val factor. pos (val * factor);
  is_positive = λ val. true;
}

abbrev shown : String → String
shown item = item

abbrev decimal : ℤ → String
decimal n = "80"

abbrev service : List String → Option (ServiceConfig String)
service others = some (record (blank shown) { image = "img"; depends_on = items others })

abbrev shop : DeployOpts String
shop = record {
  app_id = "1";
  tenant_id = "t";
  stack_name = "shop";
  compose = record {
    version = "";
    services = ("web", service ("db" ∷ [])) ∷ ("db", service []) ∷ ("old", none) ∷ [];
  };
  env_vars = [];
  http_routes = [];
}

-- A runtime that cannot start `web`.
abbrev runtime : Runtime ℕ
runtime = record {
  ensure_network = none;
  create = λ calls opts. if str_eq opts.name "monster-shop-web" then inl 7 else inr "id0";
}

abbrev failed : Option (List (Call ℕ) × Option (DeployError ℕ)) → Option (DeployError ℕ)
failed none = none
failed (some (calls, result)) = result

web_fails :
    failed (deploy whole_numbers decimal shown (some runtime) shop)
    ≡ some (service_failed "web" (not_created 7))
unfolding deploy deploy_monster.Prelude.Names.has deps deploy_monster.Prelude.Dict.lookup
web_fails = refl

deploy_starts_or_rolls_back_example :
    (order : List String) × Orders (deps shown shop.compose) (names shop.compose) order
    × (calls : List (Call ℕ)) × (result : Option (DeployError ℕ)) × (deploy whole_numbers decimal
          shown
          (some runtime)
          shop
        ≡ some (calls, result))
    × Outcome "shop" (some runtime) (containers shop order) calls result
deploy_starts_or_rolls_back_example =
    deploy_starts_or_rolls_back whole_numbers decimal shown (some runtime) shop

label_cleaned : label_name (bytes " My_Shop--web! ") ≡ bytes "my-shop-web"
unfolding label_name
label_cleaned = refl

gigabytes : parse_memory whole_numbers "2G" ≡ pos 2048
unfolding parse_memory has_suffix
gigabytes = refl

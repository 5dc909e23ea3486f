-- ===== src/Deploy/Rollback/Tests.antt =====
-- A rollback from version 2 to version 1.
use text.Mathlib.TextEquality.{eq_iff}
use text.Mathlib.TextLemmas.{cons-append}
use Prim.Native.Char.{code}
use mathlib.Core.Path.{subst}
use deploy_monster.Prelude.{
  ℕ, zero, suc, ◌≡◌, ◌≢◌, refl, sym, ap, ◌∙◌, Bool, true, false, [], ◌∷◌, Option, none, some,
  String, inl, inr, arith,
}
use Prim.Native.String.{◌++◌ as ◌⧺◌}
use deploy_monster.Prelude.Int.{ℤ, pos}
use deploy_monster.Compose.Stack.{ContainerOpts}
use deploy_monster.Deploy.Rollback.{
  Deployment, Application, Store, Runtime, Done, is_blank, rollback,
}
use deploy_monster.Deploy.Rollback.Serving.{IsSafe}
use deploy_monster.Deploy.Rollback.Safety.{rollback-IsSafe}

abbrev row : ℕ → String → String → Deployment
row version image container_id = record {
  version = version;
  image = image;
  status = "running";
  commit_sha = "abc";
  commit_message = "";
  container_id = container_id;
  triggered_by = "push";
  strategy = "recreate";
}

abbrev shop : Application
shop = record { id = "a"; name = "shop"; tenant_id = "t"; port = pos 0 }

abbrev store : Store ℕ
store = record {
  deployments = λ limit. inr (row 2 "img:2" "c2" ∷ row 1 "img:1" "" ∷ []);
  app = inr shop;
  latest = some (row 2 "img:2" "c2");
  next_version = inr 3;
  domains = "shop.example" ∷ [];
  update_deployment = λ d. none;
}

-- The container is there after two questions without an answer.
abbrev slow : ℕ → Option Bool
slow zero = none
slow (suc zero) = none
slow (suc (suc n)) = some true

abbrev runtime : Runtime ℕ
runtime = record { create = λ opts. inr "c3"; running = slow }

abbrev shown : ℕ → String
shown n = "3"

abbrev decimal : ℤ → String
decimal n = "80"

abbrev outcome : Done ℕ → String
outcome (effects, inl why) = ""
outcome (effects, inr d) = d.container_id

new_container : outcome (rollback shown decimal store (some runtime) "a" 1) ≡ "c3"
unfolding rollback
new_container = refl

no_such_version : (rollback shown decimal store (some runtime) "a" 7).0 ≡ []
unfolding rollback
no_such_version = refl

abbrev first : String → ℕ
first String.[] = 0
first (String.◌∷◌ letter rest) = code letter

first_of_name : (rest : String) → first ("dm-" ⧺ rest) ≡ b'd'
first_of_name rest = rw cons-append refl

not_a_name : (rest : String) → "dm-" ⧺ rest ≢ "c2"
not_a_name rest e = let clash = sym (first_of_name rest) ∙ ap first e in omega (arith, clash)

fresh_id :
    (opts : ContainerOpts) (id : String)
    → runtime.create opts ≡ inr id
    → (id ≢ "c2") × (is_blank id ≡ false)
fresh_id opts id e =
    let same : "c3" ≡ id = cc in
    subst (λ x. (x ≢ "c2") × (is_blank x ≡ false)) same
      (λ h. absurd (cc ((eq_iff "c3" "c2").1 h)), refl)

rollback-IsSafe_example :
    IsSafe "c2" (rollback shown decimal store (some runtime) "a" 1) ("c2" ∷ [])
rollback-IsSafe_example =
    rollback-IsSafe shown decimal store runtime "a" 1 refl
      (λ app version. not_a_name (app.id ⧺ "-3")) fresh_id

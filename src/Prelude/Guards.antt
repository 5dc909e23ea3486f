-- ===== src/Prelude/Guards.antt =====
-- Results behind guards: what holds where there is one.
use deploy_monster.Prelude.{
  ◌≡◌, refl, ◌⊎◌, inl, inr, Bool, true, false, none, some, arith, if◌then◌else◌,
}

-- A guarded result is there only if the guard holds.
pub if_some :
    {A : Type 0} (b : Bool) {x y : A} → (if b then some x else none) ≡ some y → (b ≡ true) × (x ≡ y)
if_some true h = (refl, ground (arith, h))
if_some false h = absurd (cc)

-- The same with two guards.
pub either_some :
    {A : Type 0} (a b : Bool) {x y z : A}
    → (if a then some x else if b then some y else none) ≡ some z
    → ((a ≡ true) × (x ≡ z)) ⊎ ((b ≡ true) × (y ≡ z))
either_some true b h = inl (if_some true h)
either_some false b h = inr (if_some b h)

-- A property of both branches.
pub either_way :
    {A : Type 0} (P : A → Type 0) (b : Bool) {x y : A} → P x → P y → P (if b then x else y)
either_way P true px py = px
either_way P false px py = py

-- The same where each branch may use the test.
pub by_test :
    {A : Type 0} (P : A → Type 0) (b : Bool) {x y : A}
    → (b ≡ true → P x)
    → (b ≡ false → P y)
    → P (if b then x else y)
by_test P true px py = px refl
by_test P false px py = py refl

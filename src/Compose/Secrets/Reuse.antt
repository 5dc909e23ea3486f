-- ===== src/Compose/Secrets/Reuse.antt =====
-- A variable has one secret, wherever it stands in the file, and no two variables share a draw.
use mathlib.Core.Path.{subst}
use text.Mathlib.Text.{◌==◌ as str_eq}
use text.Mathlib.TextEquality.{eq_iff}
use Prim.Native.String.{◌++◌ as ◌⧺◌}
use deploy_monster.Prelude.{
  ℕ, suc, ◌+◌, ◌≡◌, refl, sym, ap, ◌∙◌, Bool, true, false, ◌||◌, List, [], ◌∷◌, ◌++◌, Option, none,
  some, String, arith, length, length-append, if◌then◌else◌, Bool-cases, inl, inr,
}
use deploy_monster.Prelude.Dict.{lookup, insert, lookup-insert, get_or}
use deploy_monster.Prelude.Names.{has, has-append, Distinct}
use deploy_monster.Compose.Secrets.{
  Piece, literal, reference, pieces, Meaning, known, secret, as_it_is, meaning, Generated,
  secret_found, generated_secret, replace, replace_all, interpolate_with_generated,
}

-- What a reference stands for when the secrets are in `table`.
abbrev pub text_of : List (String × String) → String → Meaning → String
text_of table expr (known text) = text
text_of table expr (secret key) = get_or (lookup key table) ""
text_of table expr as_it_is = "${" ⧺ (expr ⧺ "}")

-- The text with each reference replaced on its own.
abbrev pub filled : List (String × String) → List (String × String) → List Piece → String
filled vars table [] = ""
filled vars table (literal c ∷ ps) = String.◌∷◌ c (filled vars table ps)
filled vars table (reference expr ∷ ps) =
    text_of table expr (meaning vars expr) ⧺ filled vars table ps

abbrev pub key_of : Meaning → List String
key_of (known text) = []
key_of (secret key) = key ∷ []
key_of as_it_is = []

-- The variables that need a secret, each as often as it stands in the text.
abbrev pub secret_keys : List (String × String) → List Piece → List String
secret_keys vars [] = []
secret_keys vars (literal c ∷ ps) = secret_keys vars ps
secret_keys vars (reference expr ∷ ps) = key_of (meaning vars expr) ++ secret_keys vars ps

-- The names of the first list, and behind them those of the second that are not yet there, each where
-- it is first met.
unfoldable pub add_new : List String → List String → List String
unfolding has
add_new keys [] = keys
add_new keys (key ∷ more) = add_new (if has key keys then keys else keys ++ (key ∷ [])) more

add_new-append : (keys xs ys : List String) → add_new keys (xs ++ ys) ≡ add_new (add_new keys xs) ys
unfolding add_new
add_new-append keys [] ys = refl
add_new-append keys (x ∷ xs) ys =
    add_new-append (if has x keys then keys else keys ++ (x ∷ [])) xs ys

abbrev is_some : Option String → Bool
is_some none = false
is_some (some value) = true

neither : (a b : Bool) → (a || b) ≡ false → (a ≡ false) × (b ≡ false)
neither a b h = (ground arith, ground arith)

abbrev Extends : List (String × String) → List (String × String) → Type 0
Extends a b = (key value : String) → lookup key a ≡ some value → lookup key b ≡ some value

Distinct-append :
    (id : String) (xs : List String) → has id xs ≡ false → Distinct xs → Distinct (xs ++ (id ∷ []))
unfolding has
Distinct-append id [] new d = (refl, tt)
Distinct-append id (x ∷ xs) new (fresh, d) = (
  ground (arith, has-append x xs (id ∷ []), eq_iff x id, eq_iff id x),
  Distinct-append id xs (ground arith) d,
)

module _ (password : ℕ → String) where
  -- The table for the variables `keys`: the draws from number `i` on, in order.
  abbrev pub numbered : ℕ → List String → List (String × String)
  numbered i [] = []
  numbered i (key ∷ keys) = (key, password i) ∷ numbered (suc i) keys

  lookup-numbered :
      (key : String) (i : ℕ) (keys : List String)
      → is_some (lookup key (numbered i keys)) ≡ has key keys
  unfolding lookup has
  lookup-numbered key i [] = refl
  lookup-numbered key i (k ∷ keys) =
      let ih = lookup-numbered key (suc i) keys in
      elim (Bool-cases (str_eq k key)) [ inl same ↦ rw same refl | inr other ↦ rw (other, ih) refl ]

  insert-numbered :
      (key : String) (i n : ℕ) (keys : List String)
      → has key keys ≡ false
      → n ≡ i + length keys
      → insert key (password n) (numbered i keys) ≡ numbered i (keys ++ (key ∷ []))
  unfolding insert has
  insert-numbered key i n [] new e = ap (λ j. (key, password j) ∷ []) (omega (arith, e))
  insert-numbered key i n (k ∷ keys) new e =
      let (other, later) = neither (str_eq k key) (has key keys) new in
      rw (other, insert-numbered key (suc i) n keys later (omega (arith, e))) refl

  record Inv (keys : List String) (g : Generated) : Type 0 where
    distinct : Distinct keys
    table : g.secrets ≡ numbered 0 keys
    count : g.drawn ≡ length keys

  -- From `g` to `g'`, the variables `more` were asked for.
  record Grew (keys : List String) (g : Generated) (more : List String) (g' : Generated)
      : Type 0 where
    later : List String
    inv : Inv later g'
    order : later ≡ add_new keys more
    names : (j : String) → has j later ≡ (has j keys || has j more)
    keeps : Extends g.secrets g'.secrets

  same-Grew : (keys : List String) (g : Generated) → Inv keys g → Grew keys g [] g
  unfolding has add_new
  same-Grew keys g v = record {
    later = keys;
    inv = v;
    order = refl;
    names = λ j. ground arith;
    keeps = λ k x h. h;
  }

  Grew-trans :
      (keys : List String) (g : Generated) (more : List String) (g' : Generated)
      (more' : List String) (g'' : Generated) (first : Grew keys g more g')
      → Grew first.later g' more' g''
      → Grew keys g (more ++ more') g''
  Grew-trans keys g more g' more' g'' first last = record {
    later = last.later;
    inv = last.inv;
    order =
        last.order ∙ ap (λ ks. add_new ks more') first.order ∙ sym (add_new-append keys more more');
    names = λ j. ground (arith, last.names j, first.names j, has-append j more more');
    keeps = λ k x h. last.keeps k x (first.keeps k x h);
  }

  secret_found-Grew :
      (key : String) (keys : List String) (g : Generated) (o : Option String)
      → lookup key g.secrets ≡ o
      → Inv keys g
      → Grew keys g (key ∷ []) (secret_found password o key g).1
        × (lookup key (secret_found password o key g).1.secrets
            ≡ some (secret_found password o key g).0)
  unfolding secret_found has add_new
  secret_found-Grew key keys g (some pw) found v =
      let there : has key keys ≡ true =
        sym (lookup-numbered key 0 keys) ∙ ap is_some (ap (lookup key) (sym v.table) ∙ found) in
      (
        record {
          later = keys;
          inv = v;
          order = rw there refl;
          names = λ j. ground (arith, eq_iff key j);
          keeps = λ k x h. h;
        },
        found,
      )
  secret_found-Grew key keys g none found v =
      let new : has key keys ≡ false =
        sym (lookup-numbered key 0 keys) ∙ ap is_some (ap (lookup key) (sym v.table) ∙ found) in
      (
        record {
          later = keys ++ (key ∷ []);
          inv = record {
            distinct = Distinct-append key keys new v.distinct;
            table =
                ap (insert key (password g.drawn)) v.table
                ∙ insert-numbered key 0 g.drawn keys new (omega (arith, v.count));
            count = omega (arith, v.count, length-append keys (key ∷ []));
          };
          order = rw new refl;
          names = λ j. ground (arith, has-append j keys (key ∷ []));
          keeps = λ k x h. lookup-insert key k (password g.drawn) g.secrets ∙ stays k x h;
        },
        lookup-insert key key (password g.drawn) g.secrets ∙ ground (arith, eq_iff key key),
      )
    where
      stays :
          (k x : String)
          → lookup k g.secrets ≡ some x
          → (if str_eq key k then some (password g.drawn) else lookup k g.secrets) ≡ some x
      stays k x h = elim (Bool-cases (str_eq key k)) [
        | inl same ↦ let clash = ap (λ y. lookup y g.secrets) ((eq_iff key k).0 same) in absurd (cc)
        | inr other ↦ rw other h
      ]

  -- What a call of `replace` leaves, and what its text is for any later table.
  abbrev Replaced : (expr : String) → Meaning → Generated → String × Generated → Type 0
  Replaced expr m g out =
      (final : List (String × String)) → Extends out.1.secrets final → out.0 ≡ text_of final expr m

  replace-Grew :
      (expr : String) (m : Meaning) (keys : List String) (g : Generated)
      → Inv keys g
      → Grew keys g (key_of m) (replace password expr m g).1
        × Replaced expr m g (replace password expr m g)
  unfolding replace generated_secret
  replace-Grew expr (known text) keys g v = (same-Grew keys g v, λ final e. refl)
  replace-Grew expr as_it_is keys g v = (same-Grew keys g v, λ final e. refl)
  replace-Grew expr (secret key) keys g v =
      let (grew, found) = secret_found-Grew key keys g (lookup key g.secrets) refl v in
      (grew, λ final e. sym (ap (λ o. get_or o "") (e key _ found)))

  replace_all-Grew :
      (vars : List (String × String)) (ps : List Piece) (keys : List String) (g : Generated)
      → Inv keys g
      → Grew keys g (secret_keys vars ps) (replace_all password vars ps g).1
        × ((final : List (String × String))
            → Extends (replace_all password vars ps g).1.secrets final
            → (replace_all password vars ps g).0 ≡ filled vars final ps)
  unfolding replace_all
  replace_all-Grew vars [] keys g v = (same-Grew keys g v, λ final e. refl)
  replace_all-Grew vars (literal c ∷ ps) keys g v =
      let (grew, same) = replace_all-Grew vars ps keys g v in
      (grew, λ final e. ap (λ s. String.◌∷◌ c s) (same final e))
  replace_all-Grew vars (reference expr ∷ ps) keys g v =
      let m = meaning vars expr in
      let out = replace password expr m g in
      let (first, text) = replace-Grew expr m keys g v in
      let (last, same) = replace_all-Grew vars ps first.later out.1 first.inv in
      (
        Grew-trans keys g (key_of m) out.1 (secret_keys vars ps) _ first last,
        λ final e.
            ap (λ s. s ⧺ (replace_all password vars ps out.1).0)
              (text final (λ k x h. e k x (last.keeps k x h)))
            ∙ ap (λ s. text_of final expr m ⧺ s) (same final e),
      )

-- The secrets that `InterpolateWithGenerated` makes are those of the variables that need one, each
-- with a password of its own, drawn in the order in which these variables are first met; the text
-- is the one in which every reference is replaced on its own, a secret by the entry of its variable
-- in that table. So all occurrences of a variable get one secret, which is the one that is returned.
pub interpolate_consistent :
    (password : ℕ → String) (text : String) (vars : List (String × String))
    → (interpolate_with_generated password text vars).0
        ≡ filled vars (interpolate_with_generated password text vars).1 (pieces text)
      × (let keys = add_new [] (secret_keys vars (pieces text)) in
          ((interpolate_with_generated password text vars).1 ≡ numbered password 0 keys)
          × Distinct keys
          × ((j : String) → has j keys ≡ has j (secret_keys vars (pieces text))))
unfolding interpolate_with_generated has
interpolate_consistent password text vars =
    let (grew, same) =
      replace_all-Grew password vars (pieces text) [] (record { secrets = []; drawn = 0 })
        (record { distinct = tt; table = refl; count = refl }) in
    (
      same (replace_all password vars (pieces text) (record { secrets = []; drawn = 0 })).1.secrets
          (λ k x h. h),
      (
        grew.inv.table ∙ ap (numbered password 0) grew.order,
        subst Distinct grew.order grew.inv.distinct,
        λ j. sym (ap (has j) grew.order) ∙ grew.names j,
      ),
    )

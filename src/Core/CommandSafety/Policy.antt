-- ===== src/Core/CommandSafety/Policy.antt =====
-- What a command that passes the policy cannot hold.
use deploy_monster.Prelude.{
  ◌≡◌, refl, sym, ◌∙◌, Bool, true, false, not, List, [], ◌∷◌, arith, if◌then◌else◌,
}
use deploy_monster.Prelude.Bytes.{
  listed, any_contained, Bytes, contains, has_prefix, to_lower, join, contains-append_left,
  contains-append_right,
}
use deploy_monster.Prelude.Find.{All}
use deploy_monster.Core.CommandSafety.{
  allowed_exec_commands, blocked_exec_command_flags, blocked_operators, base_name, flags_of,
  any_listed, command_tokens_safe,
}

-- Lower case keeps an occurrence of a text without capitals.
has_prefix-to_lower :
    (s p : Bytes) → to_lower p ≡ p → has_prefix s p ≡ true → has_prefix (to_lower s) p ≡ true
unfolding has_prefix to_lower
has_prefix-to_lower s [] e h = refl
has_prefix-to_lower [] (x ∷ p) e h = cc
has_prefix-to_lower (y ∷ s) (x ∷ p) e h = ground (arith, has_prefix-to_lower s p)

contains-to_lower :
    (s p : Bytes) → to_lower p ≡ p → contains s p ≡ true → contains (to_lower s) p ≡ true
unfolding contains to_lower
contains-to_lower [] p e h = h
contains-to_lower (x ∷ s) p e h =
    ground (arith, contains-to_lower s p, has_prefix-to_lower (x ∷ s) p)

contains-join_head :
    (t p : Bytes) (ts : List Bytes) → contains t p ≡ true → contains (join 32 (t ∷ ts)) p ≡ true
unfolding join
contains-join_head t p [] h = h
contains-join_head t p (u ∷ ts) h = contains-append_left t _ p h

contains-join_tail :
    (t p u : Bytes) (ts : List Bytes)
    → contains (join 32 (u ∷ ts)) p ≡ true
    → contains (join 32 (t ∷ u ∷ ts)) p ≡ true
unfolding join contains
contains-join_tail t p u ts h = contains-append_right t (32 ∷ join 32 (u ∷ ts)) p (ground arith)

false_from : (a b : Bool) → (a ≡ true → b ≡ true) → b ≡ false → a ≡ false
false_from true b f h = sym (f refl) ∙ h
false_from false b f h = refl

-- A text that the joined tokens lack is in none of them.
tokens_lack :
    (p : Bytes) (ts : List Bytes)
    → contains (join 32 ts) p ≡ false
    → All (λ t. contains t p ≡ false) ts
tokens_lack p [] h = tt
tokens_lack p (t ∷ []) h = (false_from _ _ (contains-join_head t p []) h, tt)
tokens_lack p (t ∷ u ∷ ts) h = (
  false_from _ _ (contains-join_head t p (u ∷ ts)) h,
  tokens_lack p (u ∷ ts) (false_from _ _ (contains-join_tail t p u ts) h),
)

operators_lack :
    (ts ps : List Bytes)
    → All (λ p. to_lower p ≡ p) ps
    → any_contained (to_lower (join 32 ts)) ps ≡ false
    → All (λ p. All (λ t. contains t p ≡ false) ts) ps
unfolding any_contained
operators_lack ts [] e h = tt
operators_lack ts (p ∷ ps) (e, es) h = (
  tokens_lack p ts (false_from _ _ (contains-to_lower (join 32 ts) p e) (ground arith)),
  operators_lack ts ps es (ground arith),
)

operators_are_lower : All (λ p. to_lower p ≡ p) blocked_operators
unfolding to_lower
operators_are_lower = (refl, (refl, (refl, (refl, (refl, (refl, tt))))))

flags_lack :
    (args flags : List Bytes)
    → any_listed args flags ≡ false
    → All (λ arg. listed arg flags ≡ false) args
unfolding any_listed
flags_lack [] flags h = tt
flags_lack (arg ∷ args) flags h = (ground arith, flags_lack args flags (ground arith))

-- The verdict, taken apart.
verdict :
    (first : Bytes) (args : List Bytes)
    → command_tokens_safe (first ∷ args) ≡ true
    → let base = to_lower (base_name first) in
      (listed base allowed_exec_commands ≡ true)
      × (any_listed args (flags_of base blocked_exec_command_flags) ≡ false)
      × (any_contained (to_lower (join 32 (first ∷ args))) blocked_operators ≡ false)
unfolding command_tokens_safe
verdict first args h =
    three (listed base allowed_exec_commands)
      (any_listed args (flags_of base blocked_exec_command_flags))
      (any_contained (to_lower (join 32 (first ∷ args))) blocked_operators) h
  where
    base : Bytes
    base = to_lower (base_name first)

    three :
        (a b c : Bool)
        → (if not a then false else if b then false else if c then false else true) ≡ true
        → (a ≡ true) × (b ≡ false) × (c ≡ false)
    three a b c k = ground arith

-- A command that passes has a program whose last path component, in lower case, is on the list of
-- allowed commands; none of its arguments is a flag that is blocked for that command; and no token
-- holds any of the operators && || | ; $( or a backquote, on its own or inside.
pub command_tokens_safe_sound :
    (first : Bytes) (args : List Bytes)
    → command_tokens_safe (first ∷ args) ≡ true
    → let base = to_lower (base_name first) in
      (listed base allowed_exec_commands ≡ true)
      × All (λ arg. listed arg (flags_of base blocked_exec_command_flags) ≡ false) args
      × All (λ p. All (λ t. contains t p ≡ false) (first ∷ args)) blocked_operators
command_tokens_safe_sound first args h =
    let (allowed, flags, operators) = verdict first args h in
    (
      allowed,
      flags_lack args _ flags,
      operators_lack (first ∷ args) blocked_operators operators_are_lower operators,
    )

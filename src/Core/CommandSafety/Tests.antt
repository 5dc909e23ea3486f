-- ===== src/Core/CommandSafety/Tests.antt =====
-- The policy at concrete commands.
use deploy_monster.Prelude.{◌≡◌, refl, true, false, List, [], ◌∷◌, arith}
use deploy_monster.Prelude.Bytes.{
  listed, any_contained, Bytes, bytes, eq, contains, has_prefix, to_lower, join,
}
use deploy_monster.Prelude.Find.{All}
use deploy_monster.Core.CommandSafety.{
  command_safe, split_command, allowed_exec_commands, blocked_operators, blocked_exec_command_flags,
  flags_of, base_name, any_listed, is_empty,
}
use deploy_monster.Core.CommandSafety.Policy.{command_tokens_safe_sound}
use deploy_monster.Core.CommandSafety.Splitting.{split_command-join, split_command-AreSome, AreSome}

tests : Unit {0}
unfolding command_safe eq contains has_prefix to_lower join base_name listed flags_of any_listed
    any_contained
tests = tt

allowed_with_path : command_safe (bytes "/usr/bin/LS -la '/tmp/a b'") ≡ true
unfolding tests
allowed_with_path = refl

refused_pipe : command_safe (bytes "cat x|sh") ≡ false
unfolding tests
refused_pipe = refl

refused_flag : command_safe (bytes "bash -c id") ≡ false
unfolding tests
refused_flag = refl

-- A blocked flag in one word with others is not seen.
joined_flag : command_safe (bytes "bash -xc id") ≡ true
unfolding tests
joined_flag = refl

quoted : split_command (bytes "a 'b c'\"d\" e") ≡ bytes "a" ∷ bytes "b cd" ∷ bytes "e" ∷ []
unfolding split_command
quoted = refl

abbrev args : List Bytes
args = bytes "-l" ∷ bytes "/tmp" ∷ []

command_tokens_safe_sound_example :
    (listed (to_lower (base_name (bytes "/bin/ls"))) allowed_exec_commands ≡ true)
    × All
        (λ arg.
          listed arg (flags_of (to_lower (base_name (bytes "/bin/ls"))) blocked_exec_command_flags)
          ≡ false)
        args
    × All (λ p. All (λ t. contains t p ≡ false) (bytes "/bin/ls" ∷ args)) blocked_operators
unfolding tests
command_tokens_safe_sound_example = command_tokens_safe_sound (bytes "/bin/ls") args refl

split_command-join_example : split_command (join 32 (bytes "ls" ∷ args)) ≡ bytes "ls" ∷ args
split_command-join_example = split_command-join (bytes "ls") args (ground arith)

tokens_of_a_command :
    (is_empty (split_command (bytes "'' \"")) ≡ false) × AreSome (split_command (bytes "'' \""))
tokens_of_a_command = split_command-AreSome (bytes "'' \"")

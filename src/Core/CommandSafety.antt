-- ===== src/Core/CommandSafety.antt =====
-- internal/core/command_safety.go: splitting a command line, and the policy on what may be executed.
-- Strings are bytes. strings.ToLower is modelled on ASCII: bytes from 128 on are left as they are.
pub mod Policy
pub mod Splitting
mod Tests
use deploy_monster.Prelude.{
  ℕ, ◌+◌, ◌*◌, ◌/◌, ◌%◌, Bool, true, false, not, ◌&&◌, ◌||◌, List, [], ◌∷◌, ◌++◌, Option, none,
  some, if◌then◌else◌, ◌==◌, ltb,
}
use deploy_monster.Prelude.Bytes.{Bytes, bytes, eq, to_lower, join, listed, any_contained}

abbrev pub allowed_exec_commands : List Bytes
allowed_exec_commands =
    bytes "ls"
    ∷ bytes "ll"
    ∷ bytes "la"
    ∷ bytes "dir"
    ∷ bytes "find"
    ∷ bytes "stat"
    ∷ bytes "cat"
    ∷ bytes "head"
    ∷ bytes "tail"
    ∷ bytes "grep"
    ∷ bytes "egrep"
    ∷ bytes "awk"
    ∷ bytes "sed"
    ∷ bytes "cut"
    ∷ bytes "sort"
    ∷ bytes "uniq"
    ∷ bytes "wc"
    ∷ bytes "tr"
    ∷ bytes "base64"
    ∷ bytes "pwd"
    ∷ bytes "cd"
    ∷ bytes "echo"
    ∷ bytes "printf"
    ∷ bytes "env"
    ∷ bytes "printenv"
    ∷ bytes "id"
    ∷ bytes "whoami"
    ∷ bytes "hostname"
    ∷ bytes "uname"
    ∷ bytes "uptime"
    ∷ bytes "date"
    ∷ bytes "ps"
    ∷ bytes "top"
    ∷ bytes "htop"
    ∷ bytes "kill"
    ∷ bytes "pkill"
    ∷ bytes "killall"
    ∷ bytes "sleep"
    ∷ bytes "watch"
    ∷ bytes "ping"
    ∷ bytes "ping6"
    ∷ bytes "curl"
    ∷ bytes "wget"
    ∷ bytes "nc"
    ∷ bytes "netcat"
    ∷ bytes "ssh"
    ∷ bytes "scp"
    ∷ bytes "rsync"
    ∷ bytes "dig"
    ∷ bytes "nslookup"
    ∷ bytes "host"
    ∷ bytes "df"
    ∷ bytes "du"
    ∷ bytes "mount"
    ∷ bytes "umount"
    ∷ bytes "ln"
    ∷ bytes "mkdir"
    ∷ bytes "touch"
    ∷ bytes "file"
    ∷ bytes "tar"
    ∷ bytes "gzip"
    ∷ bytes "gunzip"
    ∷ bytes "zip"
    ∷ bytes "unzip"
    ∷ bytes "apt"
    ∷ bytes "apt-get"
    ∷ bytes "yum"
    ∷ bytes "dnf"
    ∷ bytes "apk"
    ∷ bytes "pacman"
    ∷ bytes "sh"
    ∷ bytes "bash"
    ∷ bytes "zsh"
    ∷ bytes "fish"
    ∷ bytes "python"
    ∷ bytes "python3"
    ∷ bytes "node"
    ∷ bytes "ruby"
    ∷ bytes "perl"
    ∷ bytes "php"
    ∷ bytes "lua"
    ∷ bytes "vi"
    ∷ bytes "vim"
    ∷ bytes "nano"
    ∷ bytes "emacs"
    ∷ bytes "ed"
    ∷ bytes "true"
    ∷ bytes "false"
    ∷ bytes "yes"
    ∷ bytes "seq"
    ∷ bytes "expr"
    ∷ bytes "test"
    ∷ []

abbrev pub blocked_exec_command_flags : List (Bytes × List Bytes)
blocked_exec_command_flags =
    (bytes "sh", bytes "-c" ∷ bytes "-lc" ∷ [])
    ∷ (bytes "bash", bytes "-c" ∷ bytes "-lc" ∷ [])
    ∷ (bytes "zsh", bytes "-c" ∷ bytes "-lc" ∷ [])
    ∷ (bytes "fish", bytes "-c" ∷ [])
    ∷ (bytes "python", bytes "-c" ∷ [])
    ∷ (bytes "python3", bytes "-c" ∷ [])
    ∷ (bytes "node", bytes "-e" ∷ bytes "--eval" ∷ [])
    ∷ (bytes "ruby", bytes "-e" ∷ [])
    ∷ (bytes "perl", bytes "-e" ∷ [])
    ∷ (bytes "php", bytes "-r" ∷ bytes "-B" ∷ bytes "-R" ∷ bytes "-E" ∷ [])
    ∷ (bytes "lua", bytes "-e" ∷ [])
    ∷ []

abbrev pub blocked_operators : List Bytes
blocked_operators = bytes "&&" ∷ bytes "||" ∷ bytes "|" ∷ bytes ";" ∷ bytes "$(" ∷ bytes "`" ∷ []

-- strings.Builder.WriteRune of a rune that was one byte.
unfoldable pub write_rune : ℕ → Bytes
write_rune ch = if ltb ch 128 then ch ∷ [] else (192 + ch / 64) ∷ (128 + ch % 64) ∷ []

abbrev pub is_blank : ℕ → Bool
is_blank ch = ch == 32 || ch == 9 || ch == 10 || ch == 13

abbrev pub is_quote : ℕ → Bool
is_quote ch = ch == 39 || ch == 34

abbrev pub is_empty {ℓ} : {A : Type ℓ} → List A → Bool
is_empty [] = true
is_empty (x ∷ xs) = false

-- `if current.Len() > 0 { tokens = append(tokens, current.String()) }`
unfoldable pub flush : List Bytes → Bytes → List Bytes
flush tokens current = if is_empty current then tokens else tokens ++ (current ∷ [])

-- The loop of SplitCommand; `in_quote` is 0 outside quotes.
unfoldable pub split_from : ℕ → Bytes → List Bytes → Bytes → List Bytes
unfolding flush write_rune
split_from in_quote current tokens [] = flush tokens current
split_from in_quote current tokens (ch ∷ cmd) =
    let close = split_from 0 current tokens cmd in
    let quoted = split_from in_quote (current ++ write_rune ch) tokens cmd in
    let open_ = split_from ch current tokens cmd in
    let next_token = split_from 0 [] (flush tokens current) cmd in
    let plain = split_from 0 (current ++ write_rune ch) tokens cmd in
    if not (in_quote == 0)
    then (if ch == in_quote then close else quoted)
    else if is_quote ch
    then open_
    else if is_blank ch
    then next_token
    else plain

unfoldable pub split_command : Bytes → List Bytes
unfolding split_from
split_command cmd =
    let tokens = split_from 0 [] [] cmd in
    if is_empty tokens then bytes "/bin/true" ∷ [] else tokens

-- What stands behind the last slash, or the whole.
base_from : Bytes → Bytes → Bytes
base_from acc [] = acc
base_from acc (c ∷ s) = base_from (if c == b'/' then s else acc) s

unfoldable pub base_name : Bytes → Bytes
unfolding base_from
base_name s = base_from s s

-- The flags of a command; a command with no entry has none.
unfoldable pub flags_of : Bytes → List (Bytes × List Bytes) → List Bytes
unfolding eq
flags_of base [] = []
flags_of base ((name, flags) ∷ rest) = if eq base name then flags else flags_of base rest

unfoldable pub any_listed : List Bytes → List Bytes → Bool
unfolding listed
any_listed [] flags = false
any_listed (arg ∷ args) flags = listed arg flags || any_listed args flags

unfoldable pub command_tokens_safe : List Bytes → Bool
command_tokens_safe [] = false
command_tokens_safe (first ∷ args) =
    let base = to_lower (base_name first) in
    if not (listed base allowed_exec_commands)
    then false
    else if any_listed args (flags_of base blocked_exec_command_flags)
    then false
    else if any_contained (to_lower (join 32 (first ∷ args))) blocked_operators
    then false
    else true

unfoldable pub command_safe : Bytes → Bool
unfolding command_tokens_safe split_command
command_safe cmd = command_tokens_safe (split_command cmd)

-- ===== src/Core/CommandSafety/Splitting.antt =====
-- Splitting a command line into tokens.
use mathlib.Core.List.{append-nil, append_assoc}
use deploy_monster.Prelude.{
  ℕ, ◌<◌, ◌≡◌, refl, sym, ap, ◌∙◌, Bool, true, false, not, List, [], ◌∷◌, ◌++◌, arith,
  if◌then◌else◌, ◌==◌,
}
use deploy_monster.Prelude.Bytes.{Bytes, bytes, join}
use deploy_monster.Prelude.Find.{All}
use deploy_monster.Core.CommandSafety.{
  is_blank, is_quote, is_empty, flush, split_from, split_command, write_rune,
}

-- A byte that a token may hold unquoted.
abbrev pub IsPlainByte : ℕ → Type 0
IsPlainByte ch = (ch < 128) × (is_blank ch ≡ false) × (is_quote ch ≡ false)

abbrev pub IsPlain : Bytes → Type 0
IsPlain t = (is_empty t ≡ false) × All IsPlainByte t

write_rune_small : (c : ℕ) → c < 128 → write_rune c ≡ c ∷ []
unfolding write_rune
write_rune_small c h = ground arith

if_keeps :
    (P : List Bytes → Type 0) (b : Bool) {x y : List Bytes} → P x → P y → P (if b then x else y)
if_keeps P true p q = p
if_keeps P false p q = q

-- Plain bytes are added to the token.
split_from-plain :
    (t current : Bytes) (tokens : List Bytes) (cmd : Bytes)
    → All IsPlainByte t
    → split_from 0 current tokens (t ++ cmd) ≡ split_from 0 (current ++ t) tokens cmd
unfolding split_from
split_from-plain [] current tokens cmd h = rw append-nil
split_from-plain (c ∷ t) current tokens cmd ((small, blank, quote), h) =
    rw (quote, blank, write_rune_small c small)
      (split_from-plain t (current ++ (c ∷ [])) tokens cmd h
        ∙ ap (λ x. split_from 0 x tokens cmd) (append_assoc current (c ∷ []) t))

flush_some :
    (tokens : List Bytes) (t : Bytes) → is_empty t ≡ false → flush tokens t ≡ tokens ++ (t ∷ [])
unfolding flush
flush_some tokens t h = rw h

split_from-join :
    (tokens ts : List Bytes) → All IsPlain ts → split_from 0 [] tokens (join 32 ts) ≡ tokens ++ ts
unfolding split_from join
split_from-join tokens [] h = sym (append-nil tokens)
split_from-join tokens (t ∷ []) ((some_byte, plain), h) =
    ap (λ x. split_from 0 [] tokens x) (sym (append-nil t))
    ∙ split_from-plain t [] tokens [] plain
    ∙ flush_some tokens t some_byte
split_from-join tokens (t ∷ u ∷ ts) ((some_byte, plain), h) =
    split_from-plain t [] tokens (32 ∷ join 32 (u ∷ ts)) plain
    ∙ ap (λ x. split_from 0 [] x (join 32 (u ∷ ts))) (flush_some tokens t some_byte)
    ∙ split_from-join (tokens ++ (t ∷ [])) (u ∷ ts) h
    ∙ append_assoc tokens (t ∷ []) (u ∷ ts)

-- Tokens that are not empty and hold only ASCII bytes, no blank and no quote, come back from the
-- command line that joins them by spaces.
pub split_command-join :
    (t : Bytes) (ts : List Bytes) → All IsPlain (t ∷ ts) → split_command (join 32 (t ∷ ts)) ≡ t ∷ ts
unfolding split_command
split_command-join t ts h = rw (split_from-join [] (t ∷ ts) h) refl

abbrev pub AreSome : List Bytes → Type 0
AreSome = All (λ t. is_empty t ≡ false)

AreSome-append : (ts us : List Bytes) → AreSome ts → AreSome us → AreSome (ts ++ us)
AreSome-append [] us h k = k
AreSome-append (t ∷ ts) us (e, h) k = (e, AreSome-append ts us h k)

flush-AreSome :
    (tokens : List Bytes) (current : Bytes) → AreSome tokens → AreSome (flush tokens current)
unfolding flush
flush-AreSome tokens [] h = h
flush-AreSome tokens (c ∷ current) h = AreSome-append tokens ((c ∷ current) ∷ []) h (refl, tt)

split_from-AreSome :
    (in_quote : ℕ) (current : Bytes) (tokens : List Bytes) (cmd : Bytes)
    → AreSome tokens
    → AreSome (split_from in_quote current tokens cmd)
unfolding split_from
split_from-AreSome q current tokens [] h = flush-AreSome tokens current h
split_from-AreSome q current tokens (ch ∷ cmd) h =
    if_keeps AreSome (not (q == 0))
      (if_keeps AreSome (ch == q) (split_from-AreSome 0 current tokens cmd h)
        (split_from-AreSome q (current ++ write_rune ch) tokens cmd h))
      (if_keeps AreSome (is_quote ch) (split_from-AreSome ch current tokens cmd h) (
        if_keeps AreSome (is_blank ch)
          (split_from-AreSome 0 [] (flush tokens current) cmd (flush-AreSome tokens current h))
          (split_from-AreSome 0 (current ++ write_rune ch) tokens cmd h)))

-- Whatever the command line, there is at least one token, and no token is empty.
pub split_command-AreSome :
    (cmd : Bytes) → (is_empty (split_command cmd) ≡ false) × AreSome (split_command cmd)
unfolding split_command
split_command-AreSome cmd = defaulted (split_from 0 [] [] cmd) (split_from-AreSome 0 [] [] cmd tt)
  where
    defaulted :
        (ts : List Bytes)
        → AreSome ts
        → let us = if is_empty ts then bytes "/bin/true" ∷ [] else ts in
          (is_empty us ≡ false) × AreSome us
    defaulted [] h = (refl, (refl, tt))
    defaulted (t ∷ ts) h = (refl, h)

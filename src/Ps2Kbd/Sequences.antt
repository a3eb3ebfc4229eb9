-- ===== src/Ps2Kbd/Sequences.antt =====
-- kernel/dev/ps2kbd.c: sequences of bytes, one after another.
use yjkos.Prelude.{ℕ, ◌≡◌, refl, ap, ◌∙◌, List, [], ◌∷◌, ◌++◌, Run, ok, panicked, ◌>>=◌, Errno, ◌⊎◌}
use yjkos.Ps2Kbd.{KbdContext}
use yjkos.Ps2Kbd.Receive.{receive_all, ps2_op_bytereceived}

bind_assoc :
    (r : Run KbdContext) (f g h : KbdContext → Run KbdContext)
    → ((ctx : KbdContext) → h ctx ≡ (f ctx >>= g))
    → (r >>= h) ≡ ((r >>= f) >>= g)
bind_assoc (ok ctx) f g h e = e ctx
bind_assoc panicked f g h e = refl

module _ (put_char : List ℕ → ℕ → Errno ⊎ ℕ) where
  receive_all-bind :
      (bytes bytes' : List ℕ) (ctx : KbdContext)
      → receive_all put_char (bytes ++ bytes') ctx
        ≡ (receive_all put_char bytes ctx >>= receive_all put_char bytes')
  unfolding receive_all
  receive_all-bind [] bytes' ctx = refl
  receive_all-bind (byte ∷ bytes) bytes' ctx =
      bind_assoc (ps2_op_bytereceived put_char byte ctx) (receive_all put_char bytes)
        (receive_all put_char bytes') (receive_all put_char (bytes ++ bytes'))
        (receive_all-bind bytes bytes')

  pub receive_all-append :
      (bytes bytes' : List ℕ) (ctx ctx' : KbdContext)
      → receive_all put_char bytes ctx ≡ ok ctx'
      → receive_all put_char (bytes ++ bytes') ctx ≡ receive_all put_char bytes' ctx'
  receive_all-append bytes bytes' ctx ctx' e =
      receive_all-bind bytes bytes' ctx ∙ ap (λ r. r >>= receive_all put_char bytes') e

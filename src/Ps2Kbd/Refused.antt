-- ===== src/Ps2Kbd/Refused.antt =====
-- kernel/dev/ps2kbd.c: what a stream that refuses a byte and an ACK in a sequence lead to.
use native.Mathlib.Decide.{dec_lt}
use mathlib.Core.Path.{subst}
use yjkos.Prelude.{
  sym, zero, suc, ◌+◌, ◌%◌, ◌≤◌, ◌<◌, ◌≢◌, true, set, ltb, arith, Run, ℕ, ◌≡◌, refl, ap, ◌∙◌, false,
  List, [], ◌∷◌, ◌++◌, ok, panicked, ◌>>=◌, Errno, replicate, ◌⊎◌, inl,
}
use yjkos.Ps2Kbd.{
  InputState, inputstate_default, ps2_response_ack, CmdContext, KbdContext,
  cmdstate_waitingresponse, cmdstate_failed, cmdstate_success,
}
use yjkos.Ps2Kbd.Receive.{
  is_default, receive_all, ps2_op_bytereceived, send, store_byte, dispatch, ack_received,
}
use yjkos.Ps2Kbd.Replies.{
  in_cmdstate, stored, ended, ack_received-finished, cmd_finished-next, bytereceived-ack,
}
use yjkos.Ps2Kbd.Blocked.{Blocked}

module _ (put_char : List ℕ → ℕ → Errno ⊎ ℕ) where
  -- the ACK of a command, after which the next one is refused
  pub ack-Blocked :
      (error : Errno) (ctx : KbdContext) (cmd next : CmdContext) (rest : List CmdContext)
      → ctx.state ≡ inputstate_default
      → ctx.cmd_queue ≡ cmd ∷ next ∷ rest
      → cmd.state ≡ cmdstate_waitingresponse
      → cmd.needdata ≡ false
      → put_char ctx.sent next.cmdbyte ≡ inl error
      → (ctx' : KbdContext) × (ps2_op_bytereceived put_char ps2_response_ack ctx ≡ ok ctx')
        × Blocked (in_cmdstate cmdstate_failed next) ctx' ctx'
  unfolding send
  ack-Blocked error ctx cmd next rest e q waiting plain refused =
      let next' = in_cmdstate cmdstate_waitingresponse next in
      let left = ended cmdstate_success cmd (next ∷ rest) (stored ps2_response_ack ctx) in
      let blocked : KbdContext = record left {
        cmd_queue = in_cmdstate cmdstate_failed next ∷ rest;
        sent = ctx.sent ++ next.cmdbyte ∷ [];
      } in
      let not_sent : send put_char next' rest left ≡ blocked = rw (send, refused) refl in
      (
        blocked,
        bytereceived-ack put_char ctx e
            ∙ ack_received-finished put_char (stored ps2_response_ack ctx) cmd (next ∷ rest) q
                waiting plain
            ∙ cmd_finished-next put_char cmdstate_success (stored ps2_response_ack ctx) cmd next
                rest q
            ∙ ap ok not_sent,
        record { later = rest; queue = refl; finished = refl; freed = refl; sent = refl },
      )

-- the state after an ACK in a sequence
abbrev acked : KbdContext → KbdContext
acked ctx = record ctx {
  keybytes = set ctx.keybytes ctx.next_key_byte_index ps2_response_ack;
  next_key_byte_index = ctx.next_key_byte_index + 1;
}

-- What ACKs in a sequence lead to: the index moves on, or a byte would go past the eight.
pub data Taken (n : ℕ) (ctx : KbdContext) : Run KbdContext → Type 0 where
  in_bounds :
      (ctx' : KbdContext)
      → ctx.next_key_byte_index + n ≤ 8
      → ctx'.state ≡ ctx.state
      → ctx'.next_key_byte_index ≡ ctx.next_key_byte_index + n
      → Taken n ctx (ok ctx')
  stray : 8 < ctx.next_key_byte_index + n → Taken n ctx panicked

in_sequence : (state : InputState) → state ≢ inputstate_default → is_default state ≡ false
in_sequence inputstate_default h = absurd (h refl)
in_sequence _ h = refl

module _ (put_char : List ℕ → ℕ → Errno ⊎ ℕ) where
  module _ (ctx : KbdContext) (h : ctx.state ≢ inputstate_default) (q : ctx.cmd_queue ≡ []) where
    store_byte-acked :
        ctx.next_key_byte_index < 8 → store_byte ps2_response_ack ctx ≡ ok (acked ctx)
    unfolding store_byte
    store_byte-acked lt =
        let within : ltb ctx.next_key_byte_index 8 ≡ true = ground arith in
        let next : (ctx.next_key_byte_index + 1) % 256 ≡ ctx.next_key_byte_index + 1 =
          omega arith in
        rw (store_byte, in_sequence ctx.state h, within) refl
        ∙ ap
            (λ k. ok (record ctx {
              keybytes = set ctx.keybytes ctx.next_key_byte_index ps2_response_ack;
              next_key_byte_index = k;
            }))
            next

    dispatch-acked : dispatch put_char ps2_response_ack (acked ctx) ≡ ok (acked ctx)
    unfolding dispatch ack_received
    dispatch-acked =
        let no_cmds : record (acked ctx) { cmd_queue = [] } ≡ acked ctx =
          λ i. record (acked ctx) { cmd_queue = sym q i } in
        subst (λ (c : KbdContext). dispatch put_char ps2_response_ack c ≡ ok c) no_cmds refl

    ack-acked :
        ctx.next_key_byte_index < 8
        → ps2_op_bytereceived put_char ps2_response_ack ctx ≡ ok (acked ctx)
    unfolding ps2_op_bytereceived
    ack-acked lt =
        ap (λ r. r >>= dispatch put_char ps2_response_ack) (store_byte-acked lt) ∙ dispatch-acked

    ack-stray :
        8 ≤ ctx.next_key_byte_index → ps2_op_bytereceived put_char ps2_response_ack ctx ≡ panicked
    unfolding ps2_op_bytereceived store_byte
    ack-stray le =
        let past : ltb ctx.next_key_byte_index 8 ≡ false = ground arith in
        rw (ps2_op_bytereceived, store_byte, in_sequence ctx.state h, past) refl

  -- Inside a sequence of bytes, with no command in the queue and an index of at most 8, ACKs leave
  -- the input state and advance the index into keybytes by one each; exactly if the index and their
  -- number are together more than 8, one of them would be written past the eight bytes.
  pub receive_all-Taken :
      (n : ℕ) (ctx : KbdContext)
      → ctx.state ≢ inputstate_default
      → ctx.cmd_queue ≡ []
      → ctx.next_key_byte_index ≤ 8
      → Taken n ctx (receive_all put_char (replicate n ps2_response_ack) ctx)
  unfolding receive_all
  receive_all-Taken zero ctx h q le = in_bounds ctx (omega arith) refl (omega arith)
  receive_all-Taken (suc n) ctx h q le = elim (dec_lt ctx.next_key_byte_index 8) [
    | yes lt ↦
        rw (ack-acked ctx h q lt) (one_more _ (receive_all-Taken n (acked ctx) h q (omega arith)))
    | no past ↦ rw (ack-stray ctx h q (omega arith)) (stray (omega arith))
  ]
    where
      one_more : (r : Run KbdContext) → Taken n (acked ctx) r → Taken (suc n) ctx r
      one_more r (in_bounds ctx' b s i) = in_bounds ctx' (omega arith) s (omega arith)
      one_more r (stray b) = stray (omega arith)

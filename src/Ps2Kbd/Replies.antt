-- ===== src/Ps2Kbd/Replies.antt =====
-- kernel/dev/ps2kbd.c: what ACK and RESEND do to the oldest command.
use yjkos.Prelude.{
  ℕ, suc, ◌-◌, ◌≡◌, refl, ap, ap₂, ◌∙◌, Bool, true, false, ◌&&◌, not, List, [], ◌∷◌, ◌++◌, set, ltb,
  arith, if◌then◌else◌, Run, ok, ◌>>=◌, Errno, ◌⊎◌,
}
use yjkos.Ps2Kbd.{
  inputstate_default, inputstate_waiting_responsedata, in_state, ps2_response_ack,
  ps2_response_resend, CmdState, cmdstate_waitingresponse, cmdstate_success, cmdstate_failed,
  CmdContext, KbdContext,
}
use yjkos.Ps2Kbd.Receive.{
  store_byte, send, cmd_finished, ack_received, resend_received, dispatch, ps2_op_bytereceived,
  is_waitingresponse,
}

abbrev pub in_cmdstate : CmdState → CmdContext → CmdContext
in_cmdstate state cmd = record cmd { state = state }

-- the state after a byte that came in the first input state
abbrev pub stored : ℕ → KbdContext → KbdContext
stored byte ctx = record ctx { keybytes = set ctx.keybytes 0 byte; next_key_byte_index = 1 }

pub store_byte-default :
    (byte : ℕ) (ctx : KbdContext)
    → ctx.state ≡ inputstate_default
    → store_byte byte ctx ≡ ok (stored byte ctx)
unfolding store_byte
store_byte-default byte ctx e = rw (store_byte, e) refl

-- the oldest command leaves the queue
abbrev pub ended : CmdState → CmdContext → List CmdContext → KbdContext → KbdContext
ended finalstate cmd later ctx = record ctx {
  cmd_queue = later;
  finished = ctx.finished ++ in_cmdstate finalstate cmd ∷ [];
  freed = if cmd.async then ctx.freed ++ cmd.tag ∷ [] else ctx.freed;
}

pub is_waiting :
    (cmd : CmdContext) → cmd.state ≡ cmdstate_waitingresponse → is_waitingresponse cmd ≡ true
is_waiting cmd e = rw e refl

module _ (put_char : List ℕ → ℕ → Errno ⊎ ℕ) where
  pub cmd_finished-last :
      (finalstate : CmdState) (ctx : KbdContext) (cmd : CmdContext)
      → ctx.cmd_queue ≡ cmd ∷ []
      → cmd_finished put_char finalstate ctx ≡ ok (ended finalstate cmd [] ctx)
  unfolding cmd_finished
  cmd_finished-last finalstate ctx cmd q = rw (cmd_finished, q) refl

  pub cmd_finished-next :
      (finalstate : CmdState) (ctx : KbdContext) (cmd next : CmdContext) (rest : List CmdContext)
      → ctx.cmd_queue ≡ cmd ∷ next ∷ rest
      → cmd_finished put_char finalstate ctx
        ≡ ok (
            send put_char
              (in_cmdstate cmdstate_waitingresponse next)
              rest
              (ended finalstate cmd (next ∷ rest) ctx))
  unfolding cmd_finished
  cmd_finished-next finalstate ctx cmd next rest q = rw (cmd_finished, q) refl

  module _ (ctx : KbdContext) (cmd : CmdContext) (later : List CmdContext)
      (q : ctx.cmd_queue ≡ cmd ∷ later) (waiting : cmd.state ≡ cmdstate_waitingresponse) where
    -- An ACK ends the command that waits for it.
    pub ack_received-finished :
        cmd.needdata ≡ false
        → ack_received put_char ctx ≡ cmd_finished put_char cmdstate_success ctx
    unfolding ack_received
    ack_received-finished plain =
        ap
          (λ (cmds : List CmdContext). elim cmds as (λ x. Run KbdContext) [
            | [] ↦ ok ctx
            | oldest ∷ others ↦
                if not (is_waitingresponse oldest)
                then ok ctx
                else if oldest.needdata
                then ok (in_state inputstate_waiting_responsedata ctx)
                else cmd_finished put_char cmdstate_success ctx
          ])
          q
        ∙ ap₂
            (λ (b : Bool) (n : Bool).
              if not b
              then ok ctx
              else if n
              then ok (in_state inputstate_waiting_responsedata ctx)
              else cmd_finished put_char cmdstate_success ctx)
            (is_waiting cmd waiting) plain

    resend_received-test :
        (b : Bool)
        → (ltb 0 cmd.resendcount && not cmd.noretry) ≡ b
        → resend_received put_char ctx ≡ (
            if b
            then ok (send put_char (record cmd { resendcount = cmd.resendcount - 1 }) later ctx)
            else cmd_finished put_char cmdstate_failed ctx)
    unfolding resend_received
    resend_received-test b test =
        ap
          (λ (cmds : List CmdContext). elim cmds as (λ x. Run KbdContext) [
            | [] ↦ ok ctx
            | oldest ∷ others ↦
                if not (is_waitingresponse oldest)
                then ok ctx
                else if ltb 0 oldest.resendcount && not oldest.noretry
                then ok (
                    send put_char (record oldest { resendcount = oldest.resendcount - 1 }) others
                      ctx)
                else cmd_finished put_char cmdstate_failed ctx
          ])
          q
        ∙ ap₂
            (λ (b : Bool) (n : Bool).
              if not b
              then ok ctx
              else if n
              then ok (send put_char (record cmd { resendcount = cmd.resendcount - 1 }) later ctx)
              else cmd_finished put_char cmdstate_failed ctx)
            (is_waiting cmd waiting) test

    pub resend_received-sent :
        (more : ℕ)
        → cmd.resendcount ≡ suc more
        → cmd.noretry ≡ false
        → resend_received put_char ctx
          ≡ ok (send put_char (record cmd { resendcount = more }) later ctx)
    resend_received-sent more count retry =
        let some_left : ltb 0 cmd.resendcount ≡ true = ground arith in
        let less : cmd.resendcount - 1 ≡ more = omega arith in
        resend_received-test true (ap₂ (λ a b. a && not b) some_left retry)
        ∙ ap (λ k. ok (send put_char (record cmd { resendcount = k }) later ctx)) less

    pub resend_received-failed :
        (ltb 0 cmd.resendcount && not cmd.noretry) ≡ false
        → resend_received put_char ctx ≡ cmd_finished put_char cmdstate_failed ctx
    resend_received-failed spent = resend_received-test false spent

  module _ (ctx : KbdContext) (e : ctx.state ≡ inputstate_default) where
    pub bytereceived-ack :
        ps2_op_bytereceived put_char ps2_response_ack ctx
        ≡ ack_received put_char (stored ps2_response_ack ctx)
    unfolding ps2_op_bytereceived dispatch
    bytereceived-ack =
        ap (λ r. r >>= dispatch put_char ps2_response_ack)
          (store_byte-default ps2_response_ack ctx e)

    pub bytereceived-resend :
        ps2_op_bytereceived put_char ps2_response_resend ctx
        ≡ resend_received put_char (stored ps2_response_resend ctx)
    unfolding ps2_op_bytereceived dispatch
    bytereceived-resend =
        ap (λ r. r >>= dispatch put_char ps2_response_resend)
          (store_byte-default ps2_response_resend ctx e)

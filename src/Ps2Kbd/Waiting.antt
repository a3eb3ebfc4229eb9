-- ===== src/Ps2Kbd/Waiting.antt =====
-- kernel/dev/ps2kbd.c: the loop of a request that waits for its command.
use yjkos.Prelude.{
  ltb, not, ℕ, ◌≡◌, refl, ap, ap₂, ◌∙◌, Bool, true, false, ◌&&◌, List, [], ◌∷◌, ◌++◌, ◌==◌, arith,
  inl, inr, if◌then◌else◌, Option, none, some, ok, ◌>>=◌, Errno, eio, append-nil, ◌⊎◌,
}
use yjkos.Ps2Kbd.{
  inputstate_default, ps2_response_ack, ps2_response_resend, CmdState, cmdstate_waitingresponse,
  cmdstate_success, cmdstate_failed, CmdContext, KbdContext,
}
use yjkos.Ps2Kbd.Receive.{ps2_op_bytereceived}
use yjkos.Ps2Kbd.Replies.{
  in_cmdstate, stored, ended, cmd_finished-last, ack_received-finished, resend_received-failed,
  bytereceived-ack, bytereceived-resend,
}
use yjkos.Ps2Kbd.Commands.{has_ended, cmd_result, free_cmd, ended_cmd, wait_cmd}

if_none :
    (b : Bool) (cmd : CmdContext) (rest : Option CmdContext)
    → (if b then some cmd else rest) ≡ none
    → (b ≡ false) × (rest ≡ none)
if_none false cmd rest e = (refl, e)
if_none true cmd rest e = cc

-- a list with no command that ended at an address
ended_cmd-append :
    (tag : ℕ) (cmds later : List CmdContext)
    → ended_cmd tag cmds ≡ none
    → ended_cmd tag (cmds ++ later) ≡ ended_cmd tag later
unfolding ended_cmd
ended_cmd-append tag [] later e = refl
ended_cmd-append tag (cmd ∷ cmds) later e =
    let (other, others) = if_none ((cmd.tag == tag) && has_ended cmd) cmd (ended_cmd tag cmds) e in
    ap (λ b. if b then some cmd else ended_cmd tag (cmds ++ later)) other
    ∙ ended_cmd-append tag cmds later others

same_tag : (tag : ℕ) → (tag == tag) ≡ true
same_tag tag = ground arith

ended_cmd-one :
    (cmd : CmdContext) (b : Bool)
    → has_ended cmd ≡ b
    → ended_cmd cmd.tag (cmd ∷ []) ≡ (if b then some cmd else none)
unfolding ended_cmd
ended_cmd-one cmd b e = ap₂ (λ a b. if a && b then some cmd else none) (same_tag cmd.tag) e

has_ended-state :
    (cmd : CmdContext) (state : CmdState)
    → cmd.state ≡ state
    → has_ended cmd ≡ has_ended (in_cmdstate state cmd)
has_ended-state cmd state e = rw e refl

-- the request that waits alone
pub record IsWaiting (cmd : CmdContext) (ctx : KbdContext) : Type 0 where
  pub first : ctx.state ≡ inputstate_default
  pub queue : ctx.cmd_queue ≡ cmd ∷ []
  pub waiting : cmd.state ≡ cmdstate_waitingresponse
  pub waited : cmd.async ≡ false
  pub fresh : ended_cmd cmd.tag ctx.finished ≡ none

waiting-ended_cmd :
    (cmd : CmdContext) (ctx : KbdContext)
    → IsWaiting cmd ctx
    → ended_cmd cmd.tag (ctx.finished ++ ctx.cmd_queue) ≡ none
waiting-ended_cmd cmd ctx v =
    ap (λ q. ended_cmd cmd.tag (ctx.finished ++ q)) v.queue
    ∙ ended_cmd-append cmd.tag ctx.finished (cmd ∷ []) v.fresh
    ∙ ended_cmd-one cmd false (has_ended-state cmd cmdstate_waitingresponse v.waiting)

-- a command that left the queue is found where it went
left-ended_cmd :
    (cmd : CmdContext) (finished : List CmdContext)
    → has_ended cmd ≡ true
    → ended_cmd cmd.tag finished ≡ none
    → ended_cmd cmd.tag ((finished ++ cmd ∷ []) ++ []) ≡ some cmd
left-ended_cmd cmd finished last fresh =
    ap (ended_cmd cmd.tag) (append-nil (finished ++ cmd ∷ []))
    ∙ ended_cmd-append cmd.tag finished (cmd ∷ []) fresh
    ∙ ended_cmd-one cmd true last

module _ (put_char : List ℕ → ℕ → Errno ⊎ ℕ) where
  pub wait_cmd-ended :
      (ret tag : ℕ) (bytes : List ℕ) (ctx : KbdContext) (cmd : CmdContext)
      → ended_cmd tag (ctx.finished ++ ctx.cmd_queue) ≡ some cmd
      → wait_cmd put_char ret tag bytes ctx
        ≡ ok (some (cmd_result ret cmd), bytes, free_cmd tag ctx)
  unfolding wait_cmd
  wait_cmd-ended ret tag [] ctx cmd e = rw (wait_cmd, e) refl
  wait_cmd-ended ret tag (byte ∷ bytes) ctx cmd e = rw (wait_cmd, e) refl

  -- A command that does not end takes the next byte.
  pub wait_cmd-next :
      (ret : ℕ) (cmd : CmdContext) (ctx : KbdContext) (byte : ℕ) (bytes : List ℕ)
      → IsWaiting cmd ctx
      → wait_cmd put_char ret cmd.tag (byte ∷ bytes) ctx
        ≡ (ps2_op_bytereceived put_char byte ctx >>= wait_cmd put_char ret cmd.tag bytes)
  unfolding wait_cmd
  wait_cmd-next ret cmd ctx byte bytes v = rw (wait_cmd, waiting-ended_cmd cmd ctx v) refl

  module _ (ret : ℕ) (cmd : CmdContext) (ctx : KbdContext) (v : IsWaiting cmd ctx)
      (rest : List ℕ) where
    abbrev pub after : CmdState → ℕ → KbdContext
    after state byte = free_cmd cmd.tag (ended state cmd [] (stored byte ctx))

    -- its requester frees the command, and cmd_finished does not
    pub after-freed :
        (state : CmdState) (byte : ℕ) → (after state byte).freed ≡ ctx.freed ++ cmd.tag ∷ []
    after-freed state byte =
        ap (λ b. (if b then ctx.freed ++ cmd.tag ∷ [] else ctx.freed) ++ cmd.tag ∷ []) v.waited

    pub wait_cmd-ack :
        cmd.needdata ≡ false
        → wait_cmd put_char ret cmd.tag (ps2_response_ack ∷ rest) ctx
          ≡ ok (some (inr (ret, 0)), rest, after cmdstate_success ps2_response_ack)
    wait_cmd-ack plain =
        wait_cmd-next ret cmd ctx ps2_response_ack rest v
        ∙ ap (λ r. r >>= wait_cmd put_char ret cmd.tag rest)
            (bytereceived-ack put_char ctx v.first
              ∙ ack_received-finished put_char (stored ps2_response_ack ctx) cmd [] v.queue
                  v.waiting plain
              ∙ cmd_finished-last put_char cmdstate_success (stored ps2_response_ack ctx) cmd
                  v.queue)
        ∙ wait_cmd-ended ret cmd.tag rest
            (ended cmdstate_success cmd [] (stored ps2_response_ack ctx))
            (in_cmdstate cmdstate_success cmd)
            (left-ended_cmd (in_cmdstate cmdstate_success cmd) ctx.finished refl v.fresh)
        ∙ ap
            (λ b. ok (
              some (inr (ret, if b then cmd.responsedata else 0)),
              rest,
              after cmdstate_success ps2_response_ack,
            ))
            plain

    pub wait_cmd-gives_up :
        (ltb 0 cmd.resendcount && not cmd.noretry) ≡ false
        → wait_cmd put_char ret cmd.tag (ps2_response_resend ∷ rest) ctx
          ≡ ok (some (inl eio), rest, after cmdstate_failed ps2_response_resend)
    wait_cmd-gives_up spent =
        wait_cmd-next ret cmd ctx ps2_response_resend rest v
        ∙ ap (λ r. r >>= wait_cmd put_char ret cmd.tag rest)
            (bytereceived-resend put_char ctx v.first
              ∙ resend_received-failed put_char (stored ps2_response_resend ctx) cmd [] v.queue
                  v.waiting spent
              ∙ cmd_finished-last put_char cmdstate_failed (stored ps2_response_resend ctx) cmd
                  v.queue)
        ∙ wait_cmd-ended ret cmd.tag rest
            (ended cmdstate_failed cmd [] (stored ps2_response_resend ctx))
            (in_cmdstate cmdstate_failed cmd)
            (left-ended_cmd (in_cmdstate cmdstate_failed cmd) ctx.finished refl v.fresh)

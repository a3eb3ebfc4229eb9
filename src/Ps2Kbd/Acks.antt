-- ===== src/Ps2Kbd/Acks.antt =====
-- kernel/dev/ps2kbd.c: the commands of a queue, and the ACKs that they get.
use yjkos.Prelude.{
  ℕ, ◌≡◌, refl, sym, ap, ◌∙◌, false, List, [], ◌∷◌, ◌++◌, map, Run, ok, ◌>>=◌, Errno, length,
  replicate, append_assoc, append-nil, ◌⊎◌, inr,
}
use yjkos.Ps2Kbd.{
  inputstate_default, ps2_response_ack, cmdstate_waitingresponse, cmdstate_success, CmdContext,
  KbdContext,
}
use yjkos.Ps2Kbd.Receive.{send, receive_all}
use yjkos.Ps2Kbd.Replies.{
  in_cmdstate, stored, ended, cmd_finished-last, cmd_finished-next, ack_received-finished,
  bytereceived-ack,
}

-- no command waits for data
abbrev pub NoData : List CmdContext → Type 0
NoData [] = Unit
NoData (cmd ∷ cmds) = (cmd.needdata ≡ false) × NoData cmds

-- What is left when every command of the queue got its ACK.
pub record Acked (r : Run KbdContext) (ctx : KbdContext) (cmd : CmdContext) (cmds : List CmdContext)
    : Type 0 where
  pub after : KbdContext
  pub runs : r ≡ ok after
  pub queue : after.cmd_queue ≡ []
  pub order : after.finished ≡ ctx.finished ++ map (in_cmdstate cmdstate_success) (cmd ∷ cmds)
  pub bytes : after.sent ≡ ctx.sent ++ map (λ c. c.cmdbyte) cmds
  pub first : after.state ≡ inputstate_default

module _ (put_char : List ℕ → ℕ → Errno ⊎ ℕ)
    (takes : (given : List ℕ) (byte : ℕ) → put_char given byte ≡ inr 1) where
  pub send-sent :
      (cmd : CmdContext) (later : List CmdContext) (ctx : KbdContext)
      → send put_char cmd later ctx
        ≡ record ctx { cmd_queue = cmd ∷ later; sent = ctx.sent ++ cmd.cmdbyte ∷ [] }
  unfolding send
  send-sent cmd later ctx = rw (send, takes ctx.sent cmd.cmdbyte) refl

  -- If the stream takes every byte, the oldest command of the queue waits for its reply, no command
  -- waits for data and the input state is the default, then as many ACKs as there are commands
  -- finish all of them successfully in the order in which they were queued, and send the bytes of
  -- all but the first in that order.
  pub receive_all-Acked :
      (ctx : KbdContext) (cmd : CmdContext) (cmds : List CmdContext)
      → ctx.state ≡ inputstate_default
      → ctx.cmd_queue ≡ cmd ∷ cmds
      → cmd.state ≡ cmdstate_waitingresponse
      → NoData (cmd ∷ cmds)
      → Acked
          (receive_all put_char (replicate (length (cmd ∷ cmds)) ps2_response_ack) ctx)
          ctx
          cmd
          cmds
  unfolding receive_all
  receive_all-Acked ctx cmd [] e q waiting (plain, plains) = record {
    after = ended cmdstate_success cmd [] (stored ps2_response_ack ctx);
    runs =
        ap (λ r. r >>= receive_all put_char [])
          (bytereceived-ack put_char ctx e
            ∙ ack_received-finished put_char (stored ps2_response_ack ctx) cmd [] q waiting plain
            ∙ cmd_finished-last put_char cmdstate_success (stored ps2_response_ack ctx) cmd q);
    queue = refl;
    order = refl;
    bytes = sym (append-nil ctx.sent);
    first = e;
  }
  receive_all-Acked ctx cmd (next ∷ rest) e q waiting (plain, plains) =
      let next' = in_cmdstate cmdstate_waitingresponse next in
      let ctx' : KbdContext =
        record (ended cmdstate_success cmd (next' ∷ rest) (stored ps2_response_ack ctx)) {
          sent = ctx.sent ++ next.cmdbyte ∷ [];
        } in
      let a = receive_all-Acked ctx' next' rest e refl refl plains in
      record {
        after = a.after;
        runs =
            ap (λ r. r >>= receive_all put_char (replicate (length (next ∷ rest)) ps2_response_ack))
              (bytereceived-ack put_char ctx e
                ∙ ack_received-finished put_char (stored ps2_response_ack ctx) cmd (next ∷ rest) q
                    waiting plain
                ∙ cmd_finished-next put_char cmdstate_success (stored ps2_response_ack ctx) cmd next
                    rest q
                ∙ ap ok (
                    send-sent next' rest
                      (ended cmdstate_success cmd (next ∷ rest) (stored ps2_response_ack ctx))))
            ∙ a.runs;
        queue = a.queue;
        order =
            a.order
            ∙ append_assoc ctx.finished (in_cmdstate cmdstate_success cmd ∷ [])
                (map (in_cmdstate cmdstate_success) (next ∷ rest));
        bytes = a.bytes ∙ append_assoc ctx.sent (next.cmdbyte ∷ []) (map (λ c. c.cmdbyte) rest);
        first = a.first;
      }

-- ===== src/Ps2Kbd/ReplyBounds.antt =====
-- kernel/dev/ps2kbd.c: the replies to commands keep `keybytes` and the input state in step.
use yjkos.Prelude.{
  ℕ, ◌≤◌, ◌≡◌, ◌≢◌, refl, ◌∙◌, true, false, ◌&&◌, not, List, [], ◌∷◌, ◌++◌, ltb, ◌==◌, ◌⊎◌, inl,
  inr, if◌then◌else◌, ok, ◌>>=◌, Errno,
}
use yjkos.Ps2Kbd.{
  inputstate_default, cmd_echo, CmdState, cmdstate_success, cmdstate_waitingresponse, CmdContext,
  KbdContext, in_state,
}
use yjkos.Ps2Kbd.Receive.{
  is_waitingresponse, send, cmd_finished, ack_received, resend_received, echo_received,
  response_byte_received,
}
use yjkos.Ps2Kbd.Input.{Goes, if-Goes, IsInput-default, ok-Goes, first-Goes}

queue-cases :
    (cmds : List CmdContext)
    → (cmds ≡ []) ⊎ ((cmd : CmdContext) × (later : List CmdContext) × (cmds ≡ cmd ∷ later))
queue-cases [] = inl refl
queue-cases (cmd ∷ later) = inr (cmd, later, refl)

put_char-cases :
    (r : Errno ⊎ ℕ) → ((error : Errno) × (r ≡ inl error)) ⊎ ((count : ℕ) × (r ≡ inr count))
put_char-cases (inl error) = inl (error, refl)
put_char-cases (inr count) = inr (count, refl)

module _ (put_char : List ℕ → ℕ → Errno ⊎ ℕ) where
  send-state :
      (cmd : CmdContext) (later : List CmdContext) (ctx : KbdContext)
      → (send put_char cmd later ctx).state ≡ ctx.state
  unfolding send
  send-state cmd later ctx = elim (put_char-cases (put_char ctx.sent cmd.cmdbyte)) [
    | inl (error, e) ↦ rw (send, e) refl
    | inr (count, e) ↦ rw (send, e) refl
  ]

  -- the end of a command
  cmd_finished-ok :
      (finalstate : CmdState) (ctx : KbdContext) (cmd : CmdContext) (later : List CmdContext)
      → ctx.cmd_queue ≡ cmd ∷ later
      → (ctx' : KbdContext) × (cmd_finished put_char finalstate ctx ≡ ok ctx')
        × (ctx'.state ≡ ctx.state)
  unfolding cmd_finished
  cmd_finished-ok finalstate ctx cmd [] e = (
    record ctx {
      cmd_queue = [];
      finished = ctx.finished ++ record cmd { state = finalstate } ∷ [];
      freed = if cmd.async then ctx.freed ++ cmd.tag ∷ [] else ctx.freed;
    },
    rw (cmd_finished, e) refl,
    refl,
  )
  cmd_finished-ok finalstate ctx cmd (next ∷ rest) e =
      let left : KbdContext = record ctx {
        cmd_queue = next ∷ rest;
        finished = ctx.finished ++ record cmd { state = finalstate } ∷ [];
        freed = if cmd.async then ctx.freed ++ cmd.tag ∷ [] else ctx.freed;
      } in
      let waiting : CmdContext = record next { state = cmdstate_waitingresponse } in
      (send put_char waiting rest left, rw (cmd_finished, e) refl, send-state waiting rest left)

  module _ (ctx : KbdContext) (e : ctx.state ≡ inputstate_default) where
    cmd_finished-Goes :
        (finalstate : CmdState) (cmd : CmdContext) (later : List CmdContext)
        → ctx.cmd_queue ≡ cmd ∷ later
        → Goes (cmd_finished put_char finalstate ctx)
    unfolding Goes
    cmd_finished-Goes finalstate cmd later q =
        let (ctx', done, same) = cmd_finished-ok finalstate ctx cmd later q in
        (ctx', done, IsInput-default ctx' (same ∙ e))

    send-Goes :
        (cmd : CmdContext) (later : List CmdContext) → Goes (ok (send put_char cmd later ctx))
    send-Goes cmd later = first-Goes _ (send-state cmd later ctx ∙ e)

    pub ack_received-Goes : ctx.next_key_byte_index ≤ 1 → Goes (ack_received put_char ctx)
    unfolding ack_received
    ack_received-Goes le = elim (queue-cases ctx.cmd_queue) [
      | inl q ↦ rw (ack_received, q) (first-Goes ctx e)
      | inr (cmd, later, q) ↦
          rw (ack_received, q)
            (if-Goes (not (is_waitingresponse cmd)) _ _ (first-Goes ctx e) (
              if-Goes cmd.needdata _ _
                (ok-Goes _ (record { index = λ h. le; pending = λ h none_left. cc }))
                (cmd_finished-Goes _ cmd later q)))
    ]

    pub resend_received-Goes : Goes (resend_received put_char ctx)
    unfolding resend_received
    resend_received-Goes = elim (queue-cases ctx.cmd_queue) [
      | inl q ↦ rw (resend_received, q) (first-Goes ctx e)
      | inr (cmd, later, q) ↦
          rw (resend_received, q)
            (if-Goes (not (is_waitingresponse cmd)) _ _ (first-Goes ctx e) (
              if-Goes (ltb 0 cmd.resendcount && not cmd.noretry) _ _ (send-Goes _ later)
                (cmd_finished-Goes _ cmd later q)))
    ]

    pub echo_received-Goes : Goes (echo_received put_char ctx)
    unfolding echo_received
    echo_received-Goes = elim (queue-cases ctx.cmd_queue) [
      | inl q ↦ rw (echo_received, q) (first-Goes ctx e)
      | inr (cmd, later, q) ↦
          rw (echo_received, q)
            (if-Goes (not (is_waitingresponse cmd)) _ _ (first-Goes ctx e) (
              if-Goes (cmd.cmdbyte == cmd_echo) _ _ (cmd_finished-Goes _ cmd later q)
                (first-Goes ctx e)))
    ]

  pub response_byte_received-Goes :
      (byte : ℕ) (ctx : KbdContext)
      → ctx.cmd_queue ≢ []
      → Goes (response_byte_received put_char byte ctx)
  unfolding response_byte_received
  response_byte_received-Goes byte ctx some_cmd = elim (queue-cases ctx.cmd_queue) [
    | inl q ↦ absurd (some_cmd q)
    | inr (cmd, later, q) ↦
        let answered = record ctx { cmd_queue = record cmd { responsedata = byte } ∷ later } in
        let (ctx', done, same) =
          cmd_finished-ok cmdstate_success answered (record cmd { responsedata = byte }) later
            refl in
        rw (response_byte_received, q)
          (elim (is_waitingresponse cmd)
            as (λ b. Goes (
              (if b then cmd_finished put_char cmdstate_success answered else ok ctx) >>= λ c.
              ok (in_state inputstate_default c))) [
                | true ↦ rw done (first-Goes (in_state inputstate_default ctx') refl)
                | false ↦ first-Goes (in_state inputstate_default ctx) refl
              ])
  ]

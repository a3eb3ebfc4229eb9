-- ===== src/Ps2Kbd/Receive.antt =====
-- kernel/dev/ps2kbd.c: the replies to commands, and `ps2_op_bytereceived`.
use yjkos.Prelude.{
  ℕ, ◌+◌, ◌-◌, ◌%◌, ◌^◌, Bool, true, false, ◌&&◌, not, List, [], ◌∷◌, ◌++◌, ltb, ◌==◌, set,
  if◌then◌else◌, Run, ok, panicked, ◌>>=◌, Errno, ◌⊎◌, inr, inl,
}
use yjkos.Ps2Kbd.{
  InputState, inputstate_default, inputstate_waiting_responsedata, inputstate_waiting_e0ext,
  inputstate_waiting_e1ext1, inputstate_waiting_e1ext2, inputstate_waiting_normalrelease,
  inputstate_waiting_e0release, inputstate_waiting_e1release1, inputstate_waiting_e1release2,
  cmd_echo, ps2_response_ack, ps2_response_resend, CmdState, cmdstate_queued,
  cmdstate_waitingresponse, cmdstate_success, cmdstate_failed, CmdContext, KbdContext, in_state,
  e0_ext_received, e0_release_received, e1_ext1_received, e1_release1_received, e1_ext2_received,
  e1_release2_received, normal_release_received, scancode_first_byte_received,
}

abbrev pub is_waitingresponse : CmdContext → Bool
is_waitingresponse cmd = elim cmd.state [
  | cmdstate_waitingresponse ↦ true
  | cmdstate_queued ↦ false
  | cmdstate_success ↦ false
  | cmdstate_failed ↦ false
]

abbrev pub is_default : InputState → Bool
is_default inputstate_default = true
is_default _ = false

-- Where the byte goes; an index past `keybytes` is a stray write.
unfoldable pub store_byte : ℕ → KbdContext → Run KbdContext
store_byte byte ctx =
    let index = if is_default ctx.state then 0 else ctx.next_key_byte_index in
    if ltb index 8
    then ok (record ctx {
      keybytes = set ctx.keybytes index byte;
      next_key_byte_index = (index + 1) % 2 ^ 8;
    })
    else panicked

module _ (put_char : List ℕ → ℕ → Errno ⊎ ℕ) where
  -- A command is given to the stream; a failure is its state.
  unfoldable pub send : CmdContext → List CmdContext → KbdContext → KbdContext
  send cmd later ctx = elim (put_char ctx.sent cmd.cmdbyte) [
    | inr count ↦ record ctx { cmd_queue = cmd ∷ later; sent = ctx.sent ++ cmd.cmdbyte ∷ [] }
    | inl e ↦ record ctx {
      cmd_queue = record cmd { state = cmdstate_failed } ∷ later;
      sent = ctx.sent ++ cmd.cmdbyte ∷ [];
    }
  ]

  -- `list_remove_back` on an empty queue fails the assertion.
  unfoldable pub cmd_finished : CmdState → KbdContext → Run KbdContext
  cmd_finished finalstate ctx = elim ctx.cmd_queue [
    | [] ↦ panicked
    | cmd ∷ later ↦
        let left = record ctx {
          cmd_queue = later;
          finished = ctx.finished ++ record cmd { state = finalstate } ∷ [];
          freed = if cmd.async then ctx.freed ++ cmd.tag ∷ [] else ctx.freed;
        } in
        elim later [
          | [] ↦ ok left
          | next ∷ rest ↦ ok (send (record next { state = cmdstate_waitingresponse }) rest left)
        ]
  ]

  unfoldable pub ack_received : KbdContext → Run KbdContext
  ack_received ctx = elim ctx.cmd_queue [
    | [] ↦ ok ctx
    | cmd ∷ later ↦
        if not (is_waitingresponse cmd)
        then ok ctx
        else if cmd.needdata
        then ok (in_state inputstate_waiting_responsedata ctx)
        else cmd_finished cmdstate_success ctx
  ]

  unfoldable pub resend_received : KbdContext → Run KbdContext
  resend_received ctx = elim ctx.cmd_queue [
    | [] ↦ ok ctx
    | cmd ∷ later ↦
        if not (is_waitingresponse cmd)
        then ok ctx
        else if ltb 0 cmd.resendcount && not cmd.noretry
        then ok (send (record cmd { resendcount = cmd.resendcount - 1 }) later ctx)
        else cmd_finished cmdstate_failed ctx
  ]

  unfoldable pub echo_received : KbdContext → Run KbdContext
  echo_received ctx = elim ctx.cmd_queue [
    | [] ↦ ok ctx
    | cmd ∷ later ↦
        if not (is_waitingresponse cmd)
        then ok ctx
        else if cmd.cmdbyte == cmd_echo
        then cmd_finished cmdstate_success ctx
        else ok ctx
  ]

  -- With no command the input state stays as it is.
  unfoldable pub response_byte_received : ℕ → KbdContext → Run KbdContext
  response_byte_received byte ctx = elim ctx.cmd_queue [
    | [] ↦ ok ctx
    | cmd ∷ later ↦
        (if is_waitingresponse cmd
          then cmd_finished cmdstate_success
              (record ctx { cmd_queue = record cmd { responsedata = byte } ∷ later })
          else ok ctx)
        >>= λ ctx'. ok (in_state inputstate_default ctx')
  ]

  -- the `switch` on the input state
  unfoldable pub data_received : ℕ → InputState → KbdContext → Run KbdContext
  data_received byte inputstate_waiting_responsedata ctx = response_byte_received byte ctx
  data_received byte inputstate_waiting_e0ext ctx = e0_ext_received byte ctx
  data_received byte inputstate_waiting_e0release ctx = e0_release_received byte ctx
  data_received byte inputstate_waiting_e1ext1 ctx = e1_ext1_received byte ctx
  data_received byte inputstate_waiting_e1release1 ctx = e1_release1_received byte ctx
  data_received byte inputstate_waiting_e1ext2 ctx = e1_ext2_received byte ctx
  data_received byte inputstate_waiting_e1release2 ctx = e1_release2_received byte ctx
  data_received byte inputstate_waiting_normalrelease ctx = normal_release_received byte ctx
  data_received byte inputstate_default ctx = scancode_first_byte_received byte ctx

  -- the `switch` on the byte
  unfoldable pub dispatch : ℕ → KbdContext → Run KbdContext
  dispatch byte ctx =
      if byte == ps2_response_ack
      then ack_received ctx
      else if byte == ps2_response_resend
      then resend_received ctx
      else if byte == cmd_echo
      then echo_received ctx
      else data_received byte ctx.state ctx

  unfoldable pub ps2_op_bytereceived : ℕ → KbdContext → Run KbdContext
  ps2_op_bytereceived byte ctx = store_byte byte ctx >>= dispatch byte

  -- the bytes of a keyboard, one after another
  unfoldable pub receive_all : List ℕ → KbdContext → Run KbdContext
  receive_all [] ctx = ok ctx
  receive_all (byte ∷ bytes) ctx = ps2_op_bytereceived byte ctx >>= receive_all bytes

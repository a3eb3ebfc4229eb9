-- ===== src/Ps2Kbd/Tests.antt =====
-- Runs of kernel/dev/ps2kbd.c with a stream that takes every byte, and with one that refuses
-- echoes.
use yjkos.Prelude.{
  suc, ◌⊎◌, ℕ, ◌≡◌, refl, true, false, List, [], ◌∷◌, ◌++◌, ◌==◌, if◌then◌else◌, Option, none, some,
  ok, panicked, Errno, eio, inl, inr, arith, replicate, Bool,
}
use yjkos.Kbd.Layout.{letter}
use yjkos.Ps2Kbd.Strokes.{down_and_up, receive_all-Reports}
use yjkos.Kbd.Keys.{kbd_key_b, kbd_key_pause}
use yjkos.Kbd.Reached.{kbd_boot}
use yjkos.Ps2Kbd.{
  inputstate_waiting_e0ext, ps2_response_ack, ps2_response_resend, cmd_echo,
  cmdstate_waitingresponse, cmdstate_failed, CmdContext, KbdContext,
}
use yjkos.Ps2Kbd.Receive.{
  receive_all, ps2_op_bytereceived, store_byte, dispatch, ack_received, echo_received,
  data_received, response_byte_received, cmd_finished,
}
use yjkos.Ps2Kbd.Commands.{
  new_context, new_cmd, request_cmd, cmd_setleds, ps2kbd_init, ended_cmd, wait_cmd, Result, Reply,
  probe_sets, probe_set, echo, setledstate, set_scancode_set, get_scancode_set,
}
use yjkos.Ps2Kbd.Codes.{scan_code, make_code, break_code}
use yjkos.Ps2Kbd.Typing.{IsIdle, Types, receive_all-Types}
use yjkos.Ps2Kbd.Input.{Goes}
use yjkos.Ps2Kbd.Safety.{is_control, bytereceived-Goes}
use yjkos.Ps2Kbd.Replies.{in_cmdstate}
use yjkos.Ps2Kbd.Acks.{Acked, receive_all-Acked}
use yjkos.Ps2Kbd.Retries.{request_cmd-retries, request_cmd-gives_up, retries}
use yjkos.Ps2Kbd.Blocked.{Blocked, start, received, After-Blocked}
use yjkos.Ps2Kbd.Refused.{ack-Blocked, Taken, receive_all-Taken}

abbrev takes_all : List ℕ → ℕ → Errno ⊎ ℕ
takes_all given byte = inr 1

abbrev no_echo : List ℕ → ℕ → Errno ⊎ ℕ
no_echo given byte = if byte == cmd_echo then inl eio else inr 1

abbrev always : ℕ → Bool
always n = true

abbrev context : KbdContext
context = new_context kbd_boot

context-IsIdle : IsIdle context
context-IsIdle = record {
  state = refl;
  fakelshift = refl;
  fakenumpadmul = refl;
  fakelctrl = refl;
  fakenumlock = refl;
}

receive_all-Types_example : Types takes_all kbd_key_pause context
receive_all-Types_example =
    receive_all-Types takes_all kbd_key_pause context (λ e. cc) context-IsIdle

abbrev caps : KbdContext
caps = record context {
  kbd = record kbd_boot { flags = record kbd_boot.flags { lock_caps = true } };
}

caps-IsIdle : IsIdle caps
caps-IsIdle = record {
  state = refl;
  fakelshift = refl;
  fakenumpadmul = refl;
  fakelctrl = refl;
  fakenumlock = refl;
}

receive_all-Reports_example :
    (ctx' : KbdContext) × (receive_all takes_all
        (make_code (scan_code kbd_key_b) ++ break_code (scan_code kbd_key_b))
        caps
      ≡ ok ctx')
    × (ctx'.kbd.events ≡ [] ++ down_and_up kbd_key_b b'B')
    × IsIdle ctx'
receive_all-Reports_example =
    receive_all-Reports takes_all kbd_key_b kbd_key_b b'B' caps (letter 1 kbd_key_b 1 refl)
      caps-IsIdle (omega arith)

abbrev after_e0 : KbdContext
after_e0 = record context { state = inputstate_waiting_e0ext; next_key_byte_index = 1 }

bytereceived-Goes_example : Goes (ps2_op_bytereceived takes_all 0x75 after_e0)
unfolding is_control
bytereceived-Goes_example =
    bytereceived-Goes takes_all 0x75 after_e0 (λ h. cc)
      (record { index = λ h. omega arith; pending = λ h. cc })

abbrev leds : CmdContext
leds = in_cmdstate cmdstate_waitingresponse (new_cmd 0 false cmd_setleds false true)

abbrev leds_value : CmdContext
leds_value = new_cmd 1 false 7 true true

abbrev echo_cmd : CmdContext
echo_cmd = new_cmd 1 false cmd_echo false true

receive_all-Acked_example :
    Acked
      (receive_all takes_all
        (replicate 2 ps2_response_ack)
        (record context { cmd_queue = leds ∷ leds_value ∷ [] }))
      (record context { cmd_queue = leds ∷ leds_value ∷ [] })
      leds
      (leds_value ∷ [])
receive_all-Acked_example =
    receive_all-Acked takes_all (λ given byte. refl)
      (record context { cmd_queue = leds ∷ leds_value ∷ [] }) leds (leds_value ∷ []) refl refl refl
      (refl, (refl, tt))

request_cmd-retries_example :
    (ctx' : KbdContext) × (request_cmd takes_all always false cmd_setleds false false
        (replicate 2 ps2_response_resend ++ ps2_response_ack ∷ 0x1c ∷ [])
        context
      ≡ ok (some (inr (1, 0)), 0x1c ∷ [], ctx'))
    × (ctx'.cmd_queue ≡ [])
    × (ctx'.sent ≡ [] ++ replicate 3 cmd_setleds)
    × (ctx'.freed ≡ [] ++ 0 ∷ [])
unfolding ended_cmd
request_cmd-retries_example =
    request_cmd-retries takes_all (λ given byte. refl) always false false cmd_setleds context refl
      refl refl refl 2 (0x1c ∷ []) refl (omega arith)

request_cmd-gives_up_example :
    (ctx' : KbdContext) × (request_cmd takes_all always true 0 true false
        (replicate (retries true) ps2_response_resend ++ ps2_response_resend ∷ [])
        context
      ≡ ok (some (inl eio), [], ctx'))
    × (ctx'.cmd_queue ≡ [])
    × (ctx'.sent ≡ [] ++ replicate (suc (retries true)) 0)
    × (ctx'.freed ≡ [] ++ 0 ∷ [])
unfolding ended_cmd
request_cmd-gives_up_example =
    request_cmd-gives_up takes_all (λ given byte. refl) always true true 0 context refl refl refl
      refl []

abbrev failed_echo : CmdContext
failed_echo = in_cmdstate cmdstate_failed echo_cmd

abbrev stuck : KbdContext
stuck = record context { cmd_queue = failed_echo ∷ [] }

abbrev acked : KbdContext
acked = record stuck { keybytes = ps2_response_ack ∷ replicate 7 0; next_key_byte_index = 1 }

still_stuck : ps2_op_bytereceived takes_all ps2_response_ack stuck ≡ ok acked
unfolding ps2_op_bytereceived store_byte dispatch ack_received
still_stuck = refl

After-Blocked_example : Blocked failed_echo stuck acked
After-Blocked_example =
    After-Blocked takes_all always failed_echo stuck refl refl
      (record { later = []; queue = refl; finished = refl; freed = refl; sent = refl })
      (received ps2_response_ack start still_stuck)

ack-Blocked_example :
    (ctx' : KbdContext) × (ps2_op_bytereceived no_echo ps2_response_ack
        (record context { cmd_queue = leds ∷ echo_cmd ∷ [] })
      ≡ ok ctx')
    × Blocked failed_echo ctx' ctx'
ack-Blocked_example =
    ack-Blocked no_echo eio (record context { cmd_queue = leds ∷ echo_cmd ∷ [] }) leds echo_cmd []
      refl refl refl refl refl

receive_all-Taken_example :
    Taken 8 after_e0 (receive_all takes_all (replicate 8 ps2_response_ack) after_e0)
receive_all-Taken_example = receive_all-Taken takes_all 8 after_e0 (λ e. cc) refl (omega arith)

-- A keyboard that answers every command, and says that it has the set that it was given.
abbrev answers : List ℕ
answers =
    0xee ∷ 0xfa ∷ 0xfa ∷ 0xfa ∷ 0xfa ∷ 0xfa ∷ 0xfa ∷ 1 ∷ 0xfa ∷ 0xfa ∷ 0xfa ∷ 0xfa ∷ 2 ∷ 0xfa ∷ 0xfa
    ∷ 0xfa ∷ 0xfa ∷ 3 ∷ 0xfa ∷ 0xfa ∷ 0x1c ∷ []

-- what is left of the run: the result, the bytes to come, and the bytes sent
abbrev summary : Reply → Option (Option Result × List ℕ × List ℕ)
summary (ok (result, bytes, ctx)) = some (result, bytes, ctx.sent)
summary panicked = none

starts :
    summary (ps2kbd_init takes_all always true (inr (0, 0)) answers kbd_boot)
    ≡ some (
      some (inr (0, 0)),
      0x1c ∷ [],
      0xee ∷ 0xed ∷ 0 ∷ 0xf0 ∷ 1 ∷ 0xf0 ∷ 0 ∷ 0xf0 ∷ 2 ∷ 0xf0 ∷ 0 ∷ 0xf0 ∷ 3 ∷ 0xf0 ∷ 0 ∷ 0xf0 ∷ 2
          ∷ [],
    )
unfolding ps2kbd_init probe_sets probe_set echo setledstate set_scancode_set get_scancode_set
    request_cmd wait_cmd ended_cmd ps2_op_bytereceived store_byte dispatch ack_received
    echo_received data_received response_byte_received cmd_finished
starts = refl

-- ===== src/Ps2Kbd.antt =====
-- kernel/dev/ps2kbd.c: the bytes that come from a PS/2 keyboard. The command queue is the sequence
-- of its commands with the oldest (`back`) first, and a command's `tag` stands for its address.
-- Messages are left out. `put_char` is the port's stream: what `stream_put_char` returns for a
-- byte, after the bytes that it was given before.
pub mod Scancodes
pub mod Receive
pub mod Commands
pub mod Sequences
pub mod Codes
pub mod Typing
pub mod Strokes
pub mod Input
pub mod Bounds
pub mod ReplyBounds
pub mod Safety
pub mod Replies
pub mod Acks
pub mod Waiting
pub mod Retries
pub mod Data
pub mod Blocked
pub mod Refused
mod Tests
use yjkos.Prelude.{
  ℕ, ◌+◌, ◌-◌, ◌%◌, Bool, true, false, ◌&&◌, ◌||◌, not, List, [], ◌∷◌, ◌++◌, ltb, leb, ◌==◌, set,
  if◌then◌else◌, Option, none, some, Run, ok, panicked, ◌>>=◌, Errno,
}
use yjkos.Kbd.{Kbd, same_key, kbd_key_pressed, kbd_key_released}
use yjkos.Kbd.Keys.{KbdKey, kbd_key_invalid, kbd_key_print_screen, kbd_key_pause}
use yjkos.Ps2Kbd.Scancodes.{keymap_default, keymap_e0}

-- `INPUTSTATE`
pub data InputState : Type 0 where
  inputstate_default inputstate_waiting_responsedata inputstate_waiting_e0ext : InputState
  inputstate_waiting_e1ext1 inputstate_waiting_e1ext2 inputstate_waiting_normalrelease : InputState
  inputstate_waiting_e0release inputstate_waiting_e1release1 : InputState
  inputstate_waiting_e1release2 : InputState

abbrev pub cmd_echo : ℕ
cmd_echo = 0xee

abbrev pub ps2_response_ack : ℕ
ps2_response_ack = 0xfa

abbrev pub ps2_response_resend : ℕ
ps2_response_resend = 0xfe

-- `CMDSTATE`
pub data CmdState : Type 0 where
  cmdstate_queued cmdstate_waitingresponse cmdstate_success cmdstate_failed : CmdState

-- `struct cmd_context`
pub record CmdContext : Type 0 where
  pub tag : ℕ
  pub state : CmdState
  pub noretry : Bool
  pub async : Bool
  pub responsedata : ℕ
  pub cmdbyte : ℕ
  pub resendcount : ℕ
  pub needdata : Bool

-- `struct kbdcontext`, with a field for each of its flags, the commands that left the queue,
-- the addresses given to heap_free, the bytes given to the stream, the number of commands allocated, and the state of kernel/io/kbd.c.
pub record KbdContext : Type 0 where
  pub state : InputState
  pub cmd_queue : List CmdContext
  pub fakelshift_down : Bool
  pub fakenumpadmul_down : Bool
  pub fakelctrl_down : Bool
  pub fakenumlock_down : Bool
  pub keybytes : List ℕ
  pub next_key_byte_index : ℕ
  pub finished : List CmdContext
  pub freed : List ℕ
  pub sent : List ℕ
  pub allocs : ℕ
  pub kbd : Kbd

-- The messages print the bytes so far, of which the `switch` knows 1 to 8.
unfoldable pub report_bad_scancode : KbdContext → Run KbdContext
report_bad_scancode ctx =
    if leb 1 ctx.next_key_byte_index && leb ctx.next_key_byte_index 8 then ok ctx else panicked

unfoldable pub key_pressed : KbdKey → KbdContext → Run KbdContext
key_pressed key ctx =
    if same_key key kbd_key_invalid
    then report_bad_scancode ctx
    else ok (record ctx { kbd = kbd_key_pressed key ctx.kbd })

unfoldable pub key_released : KbdKey → KbdContext → Run KbdContext
key_released key ctx =
    if same_key key kbd_key_invalid
    then report_bad_scancode ctx
    else ok (record ctx { kbd = kbd_key_released key ctx.kbd })

unfoldable pub check_printscreen_press : KbdContext → Run KbdContext
check_printscreen_press ctx =
    if ctx.fakelshift_down && ctx.fakenumpadmul_down
    then key_pressed kbd_key_print_screen ctx
    else ok ctx

unfoldable pub check_printscreen_release : KbdContext → Run KbdContext
check_printscreen_release ctx =
    if ctx.fakelshift_down || ctx.fakenumpadmul_down
    then ok ctx
    else key_released kbd_key_print_screen ctx

unfoldable pub check_pause_press : KbdContext → Run KbdContext
check_pause_press ctx =
    if ctx.fakelctrl_down && ctx.fakenumlock_down then key_pressed kbd_key_pause ctx else ok ctx

unfoldable pub check_pause_release : KbdContext → Run KbdContext
check_pause_release ctx =
    if ctx.fakelctrl_down || ctx.fakenumlock_down then ok ctx else key_released kbd_key_pause ctx

abbrev pub in_state : InputState → KbdContext → KbdContext
in_state state ctx = record ctx { state = state }

unfoldable pub e0_ext_received : ℕ → KbdContext → Run KbdContext
e0_ext_received byte ctx =
    if byte == 0xf0
    then ok (in_state inputstate_waiting_e0release ctx)
    else if byte == 0x12
    then check_printscreen_press (record ctx { state = inputstate_default; fakelshift_down = true })
    else if byte == 0x7c
    then check_printscreen_press
        (record ctx { state = inputstate_default; fakenumpadmul_down = true })
    else key_pressed (keymap_e0 byte) (in_state inputstate_default ctx)

unfoldable pub e0_release_received : ℕ → KbdContext → Run KbdContext
e0_release_received byte ctx =
    if byte == 0x12
    then check_printscreen_release
        (record ctx { state = inputstate_default; fakelshift_down = false })
    else if byte == 0x7c
    then check_printscreen_release
        (record ctx { state = inputstate_default; fakenumpadmul_down = false })
    else key_released (keymap_e0 byte) (in_state inputstate_default ctx)

unfoldable pub e1_ext1_received : ℕ → KbdContext → Run KbdContext
e1_ext1_received byte ctx =
    let next = in_state inputstate_waiting_e1ext2 ctx in
    if byte == 0xf0
    then ok (in_state inputstate_waiting_e1release1 ctx)
    else if byte == 0x14
    then ok (record next { fakelctrl_down = true })
    else if byte == 0x77
    then ok (record next { fakenumlock_down = true })
    else ok next

unfoldable pub e1_release1_received : ℕ → KbdContext → Run KbdContext
e1_release1_received byte ctx =
    let next = in_state inputstate_waiting_e1ext2 ctx in
    if byte == 0x14
    then ok (record next { fakelctrl_down = false })
    else if byte == 0x77
    then ok (record next { fakenumlock_down = false })
    else ok next

unfoldable pub e1_ext2_received : ℕ → KbdContext → Run KbdContext
e1_ext2_received byte ctx =
    let last = in_state inputstate_default ctx in
    if byte == 0xf0
    then ok (in_state inputstate_waiting_e1release2 ctx)
    else if byte == 0x14
    then check_pause_press (record last { fakelctrl_down = true })
    else if byte == 0x77
    then check_pause_press (record last { fakenumlock_down = true })
    else report_bad_scancode last

unfoldable pub e1_release2_received : ℕ → KbdContext → Run KbdContext
e1_release2_received byte ctx =
    let last = in_state inputstate_default ctx in
    if byte == 0x14
    then check_pause_release (record last { fakelctrl_down = false })
    else if byte == 0x77
    then check_pause_release (record last { fakenumlock_down = false })
    else report_bad_scancode last

unfoldable pub normal_release_received : ℕ → KbdContext → Run KbdContext
normal_release_received byte ctx =
    key_released (keymap_default byte) (in_state inputstate_default ctx)

unfoldable pub scancode_first_byte_received : ℕ → KbdContext → Run KbdContext
scancode_first_byte_received byte ctx =
    if byte == 0xe0
    then ok (in_state inputstate_waiting_e0ext ctx)
    else if byte == 0xe1
    then ok (in_state inputstate_waiting_e1ext1 ctx)
    else if byte == 0xf0
    then ok (in_state inputstate_waiting_normalrelease ctx)
    else key_pressed (keymap_default byte) ctx

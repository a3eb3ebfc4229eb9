-- ===== src/Ps2Kbd/Typing.antt =====
-- kernel/dev/ps2kbd.c: the bytes that a keyboard sends for each key in scancode set 2, and what the
-- driver makes of them.
use yjkos.Prelude.{ℕ, ◌≡◌, ◌≢◌, refl, sym, false, List, Run, ok, panicked, Errno, ◌⊎◌}
use mathlib.Core.Path.{subst}
use yjkos.Kbd.{Kbd, kbd_key_pressed, kbd_key_released}
use yjkos.Kbd.Keys.{KbdKey, KbdKey-discrete, kbd_key_invalid, kbd_key_pause}
use yjkos.Ps2Kbd.{
  KbdContext, inputstate_default, scancode_first_byte_received, e0_ext_received,
  e0_release_received, e1_ext1_received, e1_release1_received, e1_ext2_received,
  e1_release2_received, normal_release_received, check_printscreen_press, check_printscreen_release,
  check_pause_press, check_pause_release, key_pressed, key_released,
}
use yjkos.Ps2Kbd.Scancodes.{keymap_default, keymap_e0, lookup_key}
use yjkos.Ps2Kbd.Receive.{receive_all, ps2_op_bytereceived, store_byte, dispatch, data_received}
use yjkos.Ps2Kbd.Codes.{scan_code, make_code, break_code}

-- between two keys
pub record IsIdle (ctx : KbdContext) : Type 0 where
  pub state : ctx.state ≡ inputstate_default
  pub fakelshift : ctx.fakelshift_down ≡ false
  pub fakenumpadmul : ctx.fakenumpadmul_down ≡ false
  pub fakelctrl : ctx.fakelctrl_down ≡ false
  pub fakenumlock : ctx.fakenumlock_down ≡ false

abbrev idle : KbdContext → KbdContext
idle ctx = record ctx {
  state = inputstate_default;
  fakelshift_down = false;
  fakenumpadmul_down = false;
  fakelctrl_down = false;
  fakenumlock_down = false;
}

IsIdle-idle : (ctx : KbdContext) → IsIdle ctx → ctx ≡ idle ctx
IsIdle-idle ctx v = λ i. record ctx {
  state = v.state i;
  fakelshift_down = v.fakelshift i;
  fakenumpadmul_down = v.fakenumpadmul i;
  fakelctrl_down = v.fakelctrl i;
  fakenumlock_down = v.fakenumlock i;
}

abbrev context : Run KbdContext → KbdContext → KbdContext
context (ok ctx) other = ctx
context panicked other = other

-- what the keyboard tells when a key goes down: Pause is then told to come up at once
unfoldable pub goes_down : KbdKey → Kbd → Kbd
goes_down kbd_key_pause kbd = kbd_key_released kbd_key_pause (kbd_key_pressed kbd_key_pause kbd)
goes_down key kbd = kbd_key_pressed key kbd

module _ (put_char : List ℕ → ℕ → Errno ⊎ ℕ) where
  -- what a key does when it goes down and comes up
  pub record Types (key : KbdKey) (ctx : KbdContext) : Type 0 where
    pub down : KbdContext
    pub up : KbdContext
    pub makes : receive_all put_char (make_code (scan_code key)) ctx ≡ ok down
    pub pressed : down.kbd ≡ goes_down key ctx.kbd
    pub breaks : receive_all put_char (break_code (scan_code key)) down ≡ ok up
    pub released : up.kbd ≡ kbd_key_released key (kbd_key_pressed key ctx.kbd)
    pub idle_after : IsIdle up
    pub queue : up.cmd_queue ≡ ctx.cmd_queue

  idle-Types : (key : KbdKey) (ctx : KbdContext) → key ≢ kbd_key_invalid → Types key (idle ctx)
  unfolding receive_all ps2_op_bytereceived store_byte dispatch data_received
      scancode_first_byte_received e0_ext_received e0_release_received e1_ext1_received
      e1_release1_received e1_ext2_received e1_release2_received normal_release_received
      check_printscreen_press check_printscreen_release check_pause_press check_pause_release
      key_pressed key_released keymap_default keymap_e0 lookup_key KbdKey-discrete scan_code
      make_code break_code goes_down
  idle-Types kbd_key_invalid ctx valid = absurd (valid refl)
  idle-Types key ctx valid =
      let down = context (receive_all put_char (make_code (scan_code key)) (idle ctx)) ctx in
      record {
        down = down;
        up = context (receive_all put_char (break_code (scan_code key)) down) ctx;
        makes = refl;
        pressed = refl;
        breaks = refl;
        released = refl;
        idle_after = record {
          state = refl;
          fakelshift = refl;
          fakenumpadmul = refl;
          fakelctrl = refl;
          fakenumlock = refl;
        };
        queue = refl;
      }

  -- Between two keys, the bytes that scancode set 2 has for a key that goes down lead to
  -- kbd_key_pressed of that key, and those for the key that comes up then to kbd_key_released of
  -- it, for every key but the invalid one; those of Pause, which sends all its bytes when it goes
  -- down and none when it comes up, lead to both at once. The commands are unchanged and the driver
  -- is between two keys again.
  pub receive_all-Types :
      (key : KbdKey) (ctx : KbdContext) → key ≢ kbd_key_invalid → IsIdle ctx → Types key ctx
  receive_all-Types key ctx valid v =
      subst (Types key) (sym (IsIdle-idle ctx v)) (idle-Types key ctx valid)

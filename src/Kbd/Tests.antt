-- ===== src/Kbd/Tests.antt =====
-- Runs of kernel/io/kbd.c on a keyboard on which Shift and then A go down.
use yjkos.Prelude.{◌≡◌, refl, false, true, [], ◌++◌, arith, some}
use yjkos.Kbd.Keys.{
  kbd_key_lshift, kbd_key_a, kbd_key_b, kbd_key_num_lock, kbd_key_caps_lock, KbdKey-discrete,
  keymap,
}
use yjkos.Kbd.{
  Kbd, Modifier-discrete, same_key, report, modifier, set_modifier, press_lock, report_event,
  enqueue_event, kbd_key_pressed, kbd_key_released, kbd_pull_event,
}
use yjkos.Kbd.Modifiers.{IsKbd}
use yjkos.Kbd.Reached.{kbd_boot, Reached, booted, key_down, Reached-IsKbd, Reached-led_calls}
use yjkos.Kbd.Locks.{release-not_down, num_lock-keysdown}
use yjkos.Kbd.Events.{key_stroke, released-pressed}

abbrev shifted : Kbd
shifted = kbd_key_pressed kbd_key_lshift kbd_boot

abbrev shift_a : Kbd
shift_a = kbd_key_pressed kbd_key_a shifted

abbrev reached : Reached (kbd_key_pressed kbd_key_a (kbd_key_pressed kbd_key_lshift kbd_boot))
reached = key_down kbd_key_a (key_down kbd_key_lshift booted)

-- the capital letter is what the reader gets after the modifier's own event
second_event :
    (kbd_pull_event (kbd_pull_event shift_a).1).0
    ≡ some (record { key = kbd_key_a; chr = b'A'; is_down = true })
unfolding kbd_key_pressed press_lock set_modifier modifier report_event report keymap enqueue_event
    kbd_pull_event KbdKey-discrete Modifier-discrete
second_event = refl

Reached-IsKbd_example : IsKbd shift_a
Reached-IsKbd_example = Reached-IsKbd reached

Reached-led_calls_example : (kbd_key_pressed kbd_key_caps_lock shift_a).led_calls ≡ []
Reached-led_calls_example = Reached-led_calls (key_down kbd_key_caps_lock reached)

num_lock-keysdown_example :
    (kbd_key_pressed kbd_key_num_lock shift_a).keysdown kbd_key_a
    ≡ same_key kbd_key_a kbd_key_num_lock
num_lock-keysdown_example = num_lock-keysdown shift_a kbd_key_a (λ e. cc)

release-not_down_example : kbd_key_released kbd_key_b shift_a ≡ shift_a
unfolding kbd_key_pressed press_lock set_modifier modifier report_event report keymap enqueue_event
    KbdKey-discrete Modifier-discrete
release-not_down_example = release-not_down kbd_key_b shift_a (Reached-IsKbd reached) refl

released-pressed_example :
    ((kbd_key_released kbd_key_a shift_a).events
      ≡ shifted.events ++ key_stroke (report kbd_key_a shifted.flags))
    × ((kbd_key_released kbd_key_a shift_a).keysdown kbd_key_a ≡ false)
unfolding kbd_key_pressed press_lock set_modifier modifier report_event report keymap enqueue_event
    KbdKey-discrete Modifier-discrete
released-pressed_example = released-pressed kbd_key_a shifted (λ e. cc) (omega arith)

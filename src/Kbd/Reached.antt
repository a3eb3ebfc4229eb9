-- ===== src/Kbd/Reached.antt =====
-- kernel/io/kbd.c: the states that a keyboard's drivers and readers lead to.
use yjkos.Prelude.{ℕ, ◌≡◌, refl, Bool, true, false, List, [], ◌∷◌, arith}
use yjkos.Kbd.Keys.{KbdKey, kbd_key_caps_lock, kbd_key_num_lock, kbd_key_scroll_lock}
use yjkos.Kbd.{
  KbdKeyEvent, Kbd, update_leds, kbd_pull_event, report_event, set_modifier, kbd_key_released,
  release_all_keys_except, press_lock, kbd_key_pressed, kbd_register,
}
use yjkos.Kbd.Modifiers.{IsKbd}
use yjkos.Kbd.Invariant.{
  Queued, report_event-Queued, kbd_key_released-changed, release_keys-keeps, release-IsKbd,
  press-IsKbd, pull-IsKbd, pressed,
}

-- the static variables at boot
abbrev pub kbd_boot : Kbd
kbd_boot = record {
  keyboards = [];
  flags = record { lock_caps = false; lock_num = false; lock_scroll = false; mods = λ m. false };
  keysdown = λ key. false;
  events = [];
  led_calls = [];
}

-- the states that the calls lead to from boot
pub data Reached : Kbd → Type 0 where
  booted : Reached kbd_boot
  registered : (result device : ℕ) {s : Kbd} → Reached s → Reached (kbd_register result device s).1
  key_down : (key : KbdKey) {s : Kbd} → Reached s → Reached (kbd_key_pressed key s)
  key_up : (key : KbdKey) {s : Kbd} → Reached s → Reached (kbd_key_released key s)
  pulled : {s : Kbd} → Reached s → Reached (kbd_pull_event s).1

-- In every state that presses, releases, pulls and registrations lead to from boot, the flag of
-- each modifier is set exactly while its key is down, and the queue has at most 500 events.
pub Reached-IsKbd : {s : Kbd} → Reached s → IsKbd s
unfolding kbd_register
Reached-IsKbd booted = record { mods = λ m. refl; events = omega arith }
Reached-IsKbd (registered result device r) = Reached-IsKbd r
Reached-IsKbd (key_down key r) = press-IsKbd key _ (Reached-IsKbd r)
Reached-IsKbd (key_up key r) = release-IsKbd key _ (Reached-IsKbd r)
Reached-IsKbd (pulled r) = pull-IsKbd _ (Reached-IsKbd r)

-- no keyboard is in the list, and none was called
Unlit : Kbd → Type 0
Unlit s = (s.keyboards ≡ []) × (s.led_calls ≡ [])

report_event-Unlit :
    (key : KbdKey) (is_down : Bool) (s : Kbd) → Unlit s → Unlit (report_event key is_down s)
unfolding Unlit Queued
report_event-Unlit key is_down s u = let (es, room, e) = report_event-Queued key is_down s in rw e u

release-Unlit : (key : KbdKey) (s : Kbd) → Unlit s → Unlit (kbd_key_released key s)
unfolding Unlit
release-Unlit key s u = let (es, room, e) = kbd_key_released-changed key s in rw e u

update_leds-Unlit : (s : Kbd) → Unlit s → Unlit (update_leds s)
unfolding Unlit update_leds
update_leds-Unlit s (e, e') = (e, rw (e, e') refl)

press_lock-Unlit : (key : KbdKey) (s : Kbd) → Unlit s → Unlit (press_lock key s)
unfolding press_lock Unlit release_all_keys_except
press_lock-Unlit kbd_key_caps_lock s u = update_leds-Unlit _ u
press_lock-Unlit kbd_key_scroll_lock s u = update_leds-Unlit _ u
press_lock-Unlit kbd_key_num_lock s u =
    release_keys-keeps {P = Unlit} release-Unlit kbd_key_num_lock _ _ (update_leds-Unlit _ u)
press_lock-Unlit _ s u = u

press-Unlit : (key : KbdKey) (s : Kbd) → Unlit s → Unlit (kbd_key_pressed key s)
unfolding kbd_key_pressed Unlit
press-Unlit key s u =
    report_event-Unlit key true (pressed key s)
      (press_lock-Unlit key (record s { flags = set_modifier key true s.flags }) u)

pull-Unlit : (s : Kbd) → Unlit s → Unlit (kbd_pull_event s).1
unfolding kbd_pull_event Unlit
pull-Unlit s u = go s.events refl
  where
    go : (es : List KbdKeyEvent) → s.events ≡ es → Unlit (kbd_pull_event s).1
    go [] e = rw (kbd_pull_event, e) u
    go (event ∷ events) e = rw (kbd_pull_event, e) u

Reached-Unlit : {s : Kbd} → Reached s → Unlit s
unfolding kbd_register Unlit
Reached-Unlit booted = (refl, refl)
Reached-Unlit (registered result device r) = Reached-Unlit r
Reached-Unlit (key_down key r) = press-Unlit key _ (Reached-Unlit r)
Reached-Unlit (key_up key r) = release-Unlit key _ (Reached-Unlit r)
Reached-Unlit (pulled r) = pull-Unlit _ (Reached-Unlit r)

-- In every state that the calls of kernel/io/kbd.c lead to from boot, no keyboard was ever asked to
-- set its LEDs.
pub Reached-led_calls : {s : Kbd} → Reached s → s.led_calls ≡ []
unfolding Unlit
Reached-led_calls r = (Reached-Unlit r).1

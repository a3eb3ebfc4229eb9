-- ===== src/Kbd.antt =====
-- kernel/io/kbd.c: which keys are down, the modifiers and locks, and the queue of key events. The
-- static variables are a record, in which each flag of `s_flags` is a field, and the queue of
-- events is the sequence of its items (Queue.Operations). The interrupt flag is left out.
pub mod Keys
pub mod Modifiers
pub mod Invariant
pub mod Reached
pub mod Locks
pub mod Events
pub mod Layout
pub mod Characters
mod Tests
use yjkos.Prelude.{
  ℕ, Bool, true, false, ◌&&◌, ◌||◌, not, List, [], ◌∷◌, ◌++◌, map, leb, length, if◌then◌else◌,
  Option, none, some,
}
use yjkos.Kbd.Keys.{
  KbdKey, KbdKey-discrete, KeymapEntry, all_keys, keymap, kbd_key_invalid, kbd_key_lshift,
  kbd_key_rshift, kbd_key_lctrl, kbd_key_rctrl, kbd_key_lalt, kbd_key_ralt, kbd_key_lsuper,
  kbd_key_rsuper, kbd_key_caps_lock, kbd_key_num_lock, kbd_key_scroll_lock,
}

-- the flags `KBD_FLAG_MOD_*`
pub data Modifier : Type 0 where
  mod_lshift mod_rshift mod_lctrl mod_rctrl mod_lalt mod_ralt mod_lsuper mod_rsuper : Modifier

unfoldable pub Modifier-discrete : Discrete Modifier
Modifier-discrete = hlevel

-- `s_flags`: the locks and the modifiers
pub record KbdFlags : Type 0 where
  pub lock_caps : Bool
  pub lock_num : Bool
  pub lock_scroll : Bool
  pub mods : Modifier → Bool

-- `struct kbd_key_event`
pub record KbdKeyEvent : Type 0 where
  pub key : KbdKey
  pub chr : ℕ
  pub is_down : Bool

-- a call of `updateleds`: the keyboard, and the states of the locks
pub record LedCall : Type 0 where
  pub device : ℕ
  pub scroll : Bool
  pub caps : Bool
  pub num : Bool

-- `s_keyboard_list`, `s_flags`, `s_keysdown`, the queue, and the calls that keyboards have had.
pub record Kbd : Type 0 where
  pub keyboards : List ℕ
  pub flags : KbdFlags
  pub keysdown : KbdKey → Bool
  pub events : List KbdKeyEvent
  pub led_calls : List LedCall

-- the length of `s_event_queue_buf`
abbrev pub event_cap : ℕ
event_cap = 500

abbrev pub same_key : KbdKey → KbdKey → Bool
same_key a b = elim (KbdKey-discrete a b) [ yes e ↦ true | no ne ↦ false ]

abbrev pub set_key : (KbdKey → Bool) → KbdKey → Bool → KbdKey → Bool
set_key keysdown key v k = if same_key k key then v else keysdown k

abbrev led_call : KbdFlags → ℕ → LedCall
led_call flags device = record {
  device = device;
  scroll = flags.lock_scroll;
  caps = flags.lock_caps;
  num = flags.lock_num;
}

unfoldable pub update_leds : Kbd → Kbd
update_leds s = record s { led_calls = s.led_calls ++ map (led_call s.flags) s.keyboards }

-- An event that finds the queue full is dropped.
unfoldable pub enqueue_event : KbdKeyEvent → Kbd → Kbd
enqueue_event event s =
    if leb event_cap (length s.events) then s else record s { events = s.events ++ event ∷ [] }

unfoldable pub kbd_pull_event : Kbd → Option KbdKeyEvent × Kbd
kbd_pull_event s = elim s.events [
  | [] ↦ (none, s)
  | event ∷ events ↦ (some event, record s { events = events })
]

-- `key_to_report` and `chr`
unfoldable pub report : KbdKey → KbdFlags → KbdKey × ℕ
report key flags =
    let e = keymap key in
    if e.with_numlock && not flags.lock_num
    then (e.key_alt, 0)
    else if (e.with_capslock && flags.lock_caps)
        || (e.with_shift && (flags.mods mod_lshift || flags.mods mod_rshift))
    then (key, e.chralt)
    else (key, e.chr)

-- the end of both functions: the event, unless there is no key to report
unfoldable pub report_event : KbdKey → Bool → Kbd → Kbd
report_event key is_down s =
    let (key_to_report, chr) = report key s.flags in
    if same_key key_to_report kbd_key_invalid
    then s
    else enqueue_event (record { key = key_to_report; chr = chr; is_down = is_down }) s

-- the flag that the `switch` on a key changes
unfoldable pub modifier : KbdKey → Option Modifier
modifier kbd_key_lshift = some mod_lshift
modifier kbd_key_rshift = some mod_rshift
modifier kbd_key_lctrl = some mod_lctrl
modifier kbd_key_rctrl = some mod_rctrl
modifier kbd_key_lalt = some mod_lalt
modifier kbd_key_ralt = some mod_ralt
modifier kbd_key_lsuper = some mod_lsuper
modifier kbd_key_rsuper = some mod_rsuper
modifier _ = none

abbrev pub set_mod : (Modifier → Bool) → Modifier → Bool → Modifier → Bool
set_mod mods m v m' = elim (Modifier-discrete m' m) [ yes e ↦ v | no ne ↦ mods m' ]

unfoldable pub set_modifier : KbdKey → Bool → KbdFlags → KbdFlags
set_modifier key v flags = elim (modifier key) [
  | none ↦ flags
  | some m ↦ record flags { mods = set_mod flags.mods m v }
]

unfoldable pub kbd_key_released : KbdKey → Kbd → Kbd
kbd_key_released key s =
    let s' = record s { flags = set_modifier key false s.flags } in
    if s.keysdown key
    then report_event key false (record s' { keysdown = set_key s.keysdown key false })
    else s'

-- the loop of `release_all_keys_except` over the keys that are left
unfoldable pub release_keys : KbdKey → List KbdKey → Kbd → Kbd
release_keys except [] s = s
release_keys except (key ∷ keys) s =
    let released = kbd_key_released key s in
    release_keys except keys
      (if same_key key except then s else if s.keysdown key then released else s)

unfoldable pub release_all_keys_except : KbdKey → Kbd → Kbd
release_all_keys_except except s = release_keys except all_keys s

-- the `switch` on a lock
unfoldable pub press_lock : KbdKey → Kbd → Kbd
press_lock kbd_key_caps_lock s =
    update_leds (record s { flags = record s.flags { lock_caps = not s.flags.lock_caps } })
press_lock kbd_key_num_lock s =
    release_all_keys_except kbd_key_num_lock
      (update_leds (record s { flags = record s.flags { lock_num = not s.flags.lock_num } }))
press_lock kbd_key_scroll_lock s =
    update_leds (record s { flags = record s.flags { lock_scroll = not s.flags.lock_scroll } })
press_lock _ s = s

unfoldable pub kbd_key_pressed : KbdKey → Kbd → Kbd
kbd_key_pressed key s =
    let s' = press_lock key (record s { flags = set_modifier key true s.flags }) in
    report_event key true (record s' { keysdown = set_key s'.keysdown key true })

-- `kbd_register`, with the result of `iodev_register`: it sets up the device and leaves
-- `s_keyboard_list` as it is.
unfoldable pub kbd_register : ℕ → ℕ → Kbd → ℕ × Kbd
kbd_register result device s = (result, s)

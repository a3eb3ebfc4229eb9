-- ===== src/Kbd/Events.antt =====
-- kernel/io/kbd.c: the events of a key that goes down and up.
use yjkos.Prelude.{
  ℕ, ◌+◌, ◌≤◌, ◌<◌, ◌≡◌, ◌≢◌, inl, inr, refl, sym, ap, ap₂, ◌∙◌, Bool, true, false, Bool-cases,
  List, [], ◌∷◌, ◌++◌, leb, length, length-append, arith, if◌then◌else◌, append-nil, append_assoc,
}
use yjkos.Kbd.Keys.{KbdKey, keymap, kbd_key_lshift, kbd_key_num_lock, kbd_key_invalid}
use yjkos.Kbd.{
  KbdFlags, KbdKeyEvent, Kbd, event_cap, same_key, update_leds, enqueue_event, report, report_event,
  modifier, set_modifier, kbd_key_released, press_lock, kbd_key_pressed,
}
use yjkos.Kbd.Modifiers.{set_key-at}
use yjkos.Kbd.Invariant.{Queued, report_event-Queued, pressed}
use yjkos.Kbd.Locks.{release-keysdown}

-- a key with no character reports itself whatever the flags are
report-down :
    (key : KbdKey) (s : Kbd)
    → key ≢ kbd_key_num_lock
    → report key (pressed key s).flags ≡ report key s.flags
unfolding report keymap press_lock modifier set_modifier update_leds
report-down kbd_key_num_lock s other = absurd (other refl)
report-down _ s other = refl

report-up :
    (key : KbdKey) (flags : KbdFlags) (v : Bool)
    → report key (set_modifier key v flags) ≡ report key flags
unfolding report keymap modifier set_modifier
report-up kbd_key_lshift flags v = refl
report-up _ flags v = refl

-- the event of a key that is reported
abbrev pub reported : Bool → KbdKey × ℕ → List KbdKeyEvent
reported is_down r =
    if same_key r.0 kbd_key_invalid
    then []
    else record { key = r.0; chr = r.1; is_down = is_down } ∷ []

-- the events of a key that goes down and up
abbrev pub key_stroke : KbdKey × ℕ → List KbdKeyEvent
key_stroke r = reported true r ++ reported false r

report_event-reported :
    (key : KbdKey) (is_down : Bool) (s : Kbd)
    → length s.events < event_cap
    → (report_event key is_down s).events ≡ s.events ++ reported is_down (report key s.flags)
unfolding report_event enqueue_event
report_event-reported key is_down s room =
    elim (Bool-cases (same_key (report key s.flags).0 kbd_key_invalid)) [
      | inl h ↦ rw h (sym (append-nil s.events))
      | inr h ↦
          let free : leb event_cap (length s.events) ≡ false = ground arith in rw (h, free) refl
    ]

pressed-events :
    (key : KbdKey) (s : Kbd) → key ≢ kbd_key_num_lock → (pressed key s).events ≡ s.events
unfolding press_lock update_leds
pressed-events kbd_key_num_lock s other = absurd (other refl)
pressed-events _ s other = refl

length-reported : (is_down : Bool) (r : KbdKey × ℕ) → length (reported is_down r) ≤ 1
length-reported is_down r = elim (Bool-cases (same_key r.0 kbd_key_invalid)) [
  | inl h ↦ rw h (omega arith)
  | inr h ↦ rw h (omega arith)
]

released-events :
    (key : KbdKey) (s : Kbd)
    → s.keysdown key ≡ true
    → length s.events < event_cap
    → (kbd_key_released key s).events ≡ s.events ++ reported false (report key s.flags)
unfolding kbd_key_released
released-events key s down room =
    rw (kbd_key_released, down)
      (report_event-reported key false _ room
        ∙ ap (λ r. s.events ++ reported false r) (report-up key s.flags false))

press-events :
    (key : KbdKey) (s : Kbd)
    → key ≢ kbd_key_num_lock
    → length s.events < event_cap
    → (kbd_key_pressed key s).events ≡ s.events ++ reported true (report key s.flags)
unfolding kbd_key_pressed
press-events key s other room =
    let e = pressed-events key s other in
    let room' : length (pressed key s).events < event_cap = rw e room in
    report_event-reported key true (pressed key s) room'
    ∙ ap₂ (λ es r. es ++ reported true r) e (report-down key s other)

press-state :
    (key : KbdKey) (s : Kbd)
    → ((kbd_key_pressed key s).flags ≡ (pressed key s).flags)
      × ((kbd_key_pressed key s).keysdown key ≡ true)
unfolding kbd_key_pressed Queued
press-state key s =
    let (es, room, e) = report_event-Queued key true (pressed key s) in
    (
      ap (λ t. t.flags) e,
      ap (λ t. t.keysdown key) e
          ∙ set_key-at
              (press_lock key (record s { flags = set_modifier key true s.flags })).keysdown key
              true,
    )

-- With room for two events, a key other than Num Lock that is pressed and released is up, and
-- appends the key going down and up to the events, both with the same reported key and character,
-- or nothing if there is no key to report.
pub released-pressed :
    (key : KbdKey) (s : Kbd)
    → key ≢ kbd_key_num_lock
    → length s.events + 2 ≤ event_cap
    → ((kbd_key_released key (kbd_key_pressed key s)).events
        ≡ s.events ++ key_stroke (report key s.flags))
      × ((kbd_key_released key (kbd_key_pressed key s)).keysdown key ≡ false)
released-pressed key s other room =
    let (flags, down) = press-state key s in
    let r = report key s.flags in
    let first = press-events key s other (omega arith) in
    let one = length-reported true r in
    let more = ap length first ∙ length-append s.events (reported true r) in
    let same = ap (report key) flags ∙ report-down key s other in
    (
      released-events key (kbd_key_pressed key s) down (omega arith)
          ∙ ap₂ (λ es r'. es ++ reported false r') first same
          ∙ append_assoc s.events (reported true r) (reported false r),
      release-keysdown key _,
    )

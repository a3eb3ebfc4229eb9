-- ===== src/Kbd/Invariant.antt =====
-- kernel/io/kbd.c: every operation keeps the flags of the modifiers and the bound of the queue.
use yjkos.Prelude.{
  ◌≤◌, ◌≡◌, inl, inr, refl, sym, ap, ◌∙◌, Bool, true, false, Bool-cases, List, [], ◌∷◌, ◌++◌, leb,
  length, length-append, arith, if◌then◌else◌, none, Option-cases,
}
use mathlib.Core.Path.{subst}
use yjkos.Kbd.Keys.{
  KbdKey, kbd_key_caps_lock, kbd_key_num_lock, kbd_key_scroll_lock, kbd_key_invalid,
}
use yjkos.Kbd.{
  Modifier, mod_lshift, mod_rshift, mod_lctrl, mod_rctrl, mod_lalt, mod_ralt, mod_lsuper,
  mod_rsuper, KbdFlags, KbdKeyEvent, Kbd, event_cap, same_key, set_key, update_leds, enqueue_event,
  kbd_pull_event, report, report_event, modifier, set_modifier, kbd_key_released, release_keys,
  release_all_keys_except, press_lock, kbd_key_pressed,
}
use yjkos.Kbd.Modifiers.{
  modifier_key, IsKbd, modifier-modifier_key, modifier_key-modifier, with_keys, set_key-other,
  set_key-same, set_modifier-set_key,
}

-- a state with other flags, keys and events
abbrev pub changed : Kbd → KbdFlags → (KbdKey → Bool) → List KbdKeyEvent → Kbd
changed s flags keysdown events = record s { flags = flags; keysdown = keysdown; events = events }

-- What changes is the queue, which stays within its buffer.
unfoldable pub Queued : Kbd → Kbd → Type 0
Queued s s' =
    (es : List KbdKeyEvent) × (length s.events ≤ event_cap → length es ≤ event_cap)
    × (s' ≡ record s { events = es })

enqueue_event-Queued : (event : KbdKeyEvent) (s : Kbd) → Queued s (enqueue_event event s)
unfolding enqueue_event Queued
enqueue_event-Queued event s = elim (Bool-cases (leb event_cap (length s.events))) [
  | inl full ↦ (s.events, λ room. room, rw full refl)
  | inr space ↦ (
    s.events ++ event ∷ [],
    λ room. rw (length-append s.events (event ∷ [])) (ground arith),
    rw space refl,
  )
]

pub report_event-Queued :
    (key : KbdKey) (is_down : Bool) (s : Kbd) → Queued s (report_event key is_down s)
unfolding report_event Queued
report_event-Queued key is_down s =
    let key_to_report = (report key s.flags).0 in
    elim (Bool-cases (same_key key_to_report kbd_key_invalid)) [
      | inl h ↦ (s.events, λ room. room, rw h refl)
      | inr h ↦ rw h (enqueue_event-Queued _ s)
    ]

-- A release is the same change whether or not the key was down.
pub kbd_key_released-changed :
    (key : KbdKey) (s : Kbd)
    → (es : List KbdKeyEvent) × (length s.events ≤ event_cap → length es ≤ event_cap)
      × (kbd_key_released key s
          ≡ changed s (set_modifier key false s.flags) (set_key s.keysdown key false) es)
unfolding kbd_key_released Queued
kbd_key_released-changed key s = elim (Bool-cases (s.keysdown key)) [
  | inl h ↦
      let (es, room, e) =
        report_event-Queued key false
          (with_keys s (set_modifier key false s.flags) (set_key s.keysdown key false)) in
      (es, room, rw h e)
  | inr h ↦ (
    s.events,
    λ room. room,
    rw h (
        ap (λ keysdown. changed s (set_modifier key false s.flags) keysdown s.events)
          (sym (set_key-same s.keysdown key false h))),
  )
]

pub release-IsKbd : (key : KbdKey) (s : Kbd) → IsKbd s → IsKbd (kbd_key_released key s)
release-IsKbd key s v =
    let (es, room, e) = kbd_key_released-changed key s in
    rw e (record {
      mods = set_modifier-set_key key false s.flags s.keysdown v.mods;
      events = room v.events;
    })

pub release_keys-keeps {ℓ} :
    {P : Kbd → Type ℓ}
    → ((key : KbdKey) (s : Kbd) → P s → P (kbd_key_released key s))
    → (except : KbdKey) (keys : List KbdKey) (s : Kbd) → P s
    → P (release_keys except keys s)
unfolding release_keys
release_keys-keeps keep except [] s p = p
release_keys-keeps {P} keep except (key ∷ keys) s p =
    release_keys-keeps {P = P} keep except keys _
      (elim (same_key key except)
        as (λ b. P (if b then s else if s.keysdown key then kbd_key_released key s else s)) [
          | true ↦ p
          | false ↦ elim (s.keysdown key) as (λ b. P (if b then kbd_key_released key s else s)) [
            | true ↦ keep key s p
            | false ↦ p
          ]
        ])

-- The keys of the locks have no flag.
press_lock-IsKbd : (key : KbdKey) (s : Kbd) → IsKbd s → IsKbd (press_lock key s)
unfolding press_lock update_leds release_all_keys_except
press_lock-IsKbd kbd_key_caps_lock s v = record { mods = v.mods; events = v.events }
press_lock-IsKbd kbd_key_scroll_lock s v = record { mods = v.mods; events = v.events }
press_lock-IsKbd kbd_key_num_lock s v =
    release_keys-keeps {P = IsKbd} release-IsKbd kbd_key_num_lock _ _
      (record { mods = v.mods; events = v.events })
press_lock-IsKbd _ s v = v

press_lock-modifier_key : (m : Modifier) (s : Kbd) → press_lock (modifier_key m) s ≡ s
unfolding press_lock
press_lock-modifier_key mod_lshift s = refl
press_lock-modifier_key mod_rshift s = refl
press_lock-modifier_key mod_lctrl s = refl
press_lock-modifier_key mod_rctrl s = refl
press_lock-modifier_key mod_lalt s = refl
press_lock-modifier_key mod_ralt s = refl
press_lock-modifier_key mod_lsuper s = refl
press_lock-modifier_key mod_rsuper s = refl

pub set_modifier-none :
    (key : KbdKey) (v : Bool) (flags : KbdFlags)
    → modifier key ≡ none
    → set_modifier key v flags ≡ flags
unfolding set_modifier
set_modifier-none key v flags e = rw (set_modifier, e) refl

abbrev down : KbdKey → Kbd → Kbd
down key s = record s { keysdown = set_key s.keysdown key true }

-- the state in which `kbd_key_pressed` reports the key
abbrev pub pressed : KbdKey → Kbd → Kbd
pressed key s = down key (press_lock key (record s { flags = set_modifier key true s.flags }))

down-IsKbd : (key : KbdKey) (s : Kbd) → modifier key ≡ none → IsKbd s → IsKbd (down key s)
down-IsKbd key s e v = record {
  mods = λ m.
      v.mods m
      ∙ sym (
          set_key-other s.keysdown key (modifier_key m) true
            (λ p. let back = modifier-modifier_key m in cc));
  events = v.events;
}

pressed-IsKbd : (key : KbdKey) (s : Kbd) → IsKbd s → IsKbd (pressed key s)
pressed-IsKbd key s v = elim (Option-cases (modifier key)) [
  | inl e ↦
      subst (λ flags. IsKbd (down key (press_lock key (record s { flags = flags }))))
        (sym (set_modifier-none key true s.flags e)) (down-IsKbd key _ e (press_lock-IsKbd key s v))
  | inr (m, e) ↦
      let at = modifier_key-modifier key m e in
      let s' = record s { flags = set_modifier key true s.flags } in
      subst (λ t. IsKbd (down key t))
        (sym (ap (λ k. press_lock k s') at ∙ press_lock-modifier_key m s'))
        (record {
          mods = set_modifier-set_key key true s.flags s.keysdown v.mods;
          events = v.events;
        })
]

pub press-IsKbd : (key : KbdKey) (s : Kbd) → IsKbd s → IsKbd (kbd_key_pressed key s)
unfolding kbd_key_pressed Queued
press-IsKbd key s v =
    let (es, room, e) = report_event-Queued key true (pressed key s) in
    let v' = pressed-IsKbd key s v in rw e (record { mods = v'.mods; events = room v'.events })

pub pull-IsKbd : (s : Kbd) → IsKbd s → IsKbd (kbd_pull_event s).1
unfolding kbd_pull_event
pull-IsKbd s v = go s.events refl
  where
    go : (es : List KbdKeyEvent) → s.events ≡ es → IsKbd (kbd_pull_event s).1
    go [] e = rw (kbd_pull_event, e) v
    go (event ∷ events) e =
        let full : length (event ∷ events) ≤ event_cap =
          subst (λ es. length es ≤ event_cap) e v.events in
        let less : length events ≤ event_cap = omega arith in
        rw (kbd_pull_event, e) (record { mods = v.mods; events = less })

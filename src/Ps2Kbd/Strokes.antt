-- ===== src/Ps2Kbd/Strokes.antt =====
-- kernel/dev/ps2kbd.c and kernel/io/kbd.c: from the bytes of a key to the events that are read.
use yjkos.Prelude.{
  ℕ, ◌+◌, ◌≤◌, ◌≡◌, ◌≢◌, ap, ◌∙◌, true, false, length, List, [], ◌∷◌, ◌++◌, ok, Errno, ◌⊎◌,
  if◌then◌else◌,
}
use yjkos.Kbd.{KbdKeyEvent, event_cap}
use yjkos.Kbd.Keys.{KbdKey, kbd_key_invalid}
use yjkos.Kbd.Events.{key_stroke, released-pressed}
use yjkos.Kbd.Layout.{Reports}
use yjkos.Kbd.Characters.{report-Reports, Reports-valid}
use yjkos.Kbd.Locks.{same_key-other}
use yjkos.Ps2Kbd.{KbdContext}
use yjkos.Ps2Kbd.Receive.{receive_all}
use yjkos.Ps2Kbd.Sequences.{receive_all-append}
use yjkos.Ps2Kbd.Codes.{scan_code, make_code, break_code}
use yjkos.Ps2Kbd.Typing.{IsIdle, receive_all-Types}

-- a key that goes down and up
abbrev pub down_and_up : KbdKey → ℕ → List KbdKeyEvent
down_and_up key chr =
    record { key = key; chr = chr; is_down = true }
    ∷ record { key = key; chr = chr; is_down = false }
    ∷ []

key_stroke-valid :
    (key : KbdKey) (chr : ℕ) → key ≢ kbd_key_invalid → key_stroke (key, chr) ≡ down_and_up key chr
key_stroke-valid key chr valid =
    ap
      (λ b.
        (if b then [] else record { key = key; chr = chr; is_down = true } ∷ [])
        ++ (if b then [] else record { key = key; chr = chr; is_down = false } ∷ []))
      (same_key-other key kbd_key_invalid valid)

module _ (put_char : List ℕ → ℕ → Errno ⊎ ℕ) where
  -- Between two keys and with room for two events, the bytes of a letter, a key of the US layout
  -- with a symbol, or a digit of the numpad that goes down and up append to the queue of events
  -- that key going down and up, with the character of the layout: capital letters with Shift or
  -- Caps Lock, the upper symbols with Shift, digits with Num Lock; without Num Lock the digits of
  -- the numpad but 5 are the keys of navigation, without a character.
  pub receive_all-Reports :
      (key other : KbdKey) (chr : ℕ) (ctx : KbdContext)
      → Reports ctx.kbd.flags key other chr
      → IsIdle ctx
      → length ctx.kbd.events + 2 ≤ event_cap
      → (ctx' : KbdContext) × (receive_all put_char
            (make_code (scan_code key) ++ break_code (scan_code key))
            ctx
          ≡ ok ctx')
        × (ctx'.kbd.events ≡ ctx.kbd.events ++ down_and_up other chr)
        × IsIdle ctx'
  receive_all-Reports key other chr ctx reports v room =
      let (valid, not_lock, valid') = Reports-valid ctx.kbd.flags key other chr reports in
      let t = receive_all-Types put_char key ctx valid v in
      (
        t.up,
        receive_all-append put_char (make_code (scan_code key)) (break_code (scan_code key)) ctx
              t.down t.makes
            ∙ t.breaks,
        ap (λ kbd. kbd.events) t.released
            ∙ (released-pressed key ctx.kbd not_lock room).0
            ∙ ap (λ r. ctx.kbd.events ++ key_stroke r)
                (report-Reports ctx.kbd.flags key other chr reports)
            ∙ ap (λ l. ctx.kbd.events ++ l) (key_stroke-valid other chr valid'),
        t.idle_after,
      )

-- ===== src/Ps2Kbd/Commands.antt =====
-- kernel/dev/ps2kbd.c: the commands that are sent to a PS/2 keyboard. A request that waits takes
-- the bytes that come in the meantime; when there are no more of them, it still waits.
use yjkos.Prelude.{
  ℕ, ◌+◌, Bool, true, false, ◌&&◌, List, [], ◌∷◌, ◌++◌, ◌==◌, if◌then◌else◌, Option, none, some,
  Run, ok, panicked, ◌>>=◌, Errno, enomem, eio, ◌⊎◌, inl, inr, replicate,
}
use yjkos.Kbd.{Kbd}
use yjkos.Ps2Kbd.{
  inputstate_default, cmd_echo, cmdstate_queued, cmdstate_waitingresponse, cmdstate_success,
  cmdstate_failed, CmdContext, KbdContext,
}
use yjkos.Ps2Kbd.Receive.{ps2_op_bytereceived}

abbrev pub cmd_setleds : ℕ
cmd_setleds = 0xed

abbrev pub cmd_scancodeset : ℕ
cmd_scancodeset = 0xf0

abbrev pub max_resend_count : ℕ
max_resend_count = 3

-- The result of a function: an error, or what it returns and the byte in `result_out`, 0 where none
-- is asked for.
abbrev pub Result : Type 0
Result = Errno ⊎ (ℕ × ℕ)

-- What a request leaves: the result, or none while it waits; the bytes that are still to come; the
-- keyboard.
abbrev pub Reply : Type 0
Reply = Run (Option Result × List ℕ × KbdContext)

-- The next part of a function that returns the first error.
abbrev pub and_then : Reply → (List ℕ → KbdContext → Reply) → Reply
and_then reply next = reply >>= λ (result, bytes, ctx). elim result [
  | none ↦ ok (none, bytes, ctx)
  | some (inl e) ↦ ok (some (inl e), bytes, ctx)
  | some (inr v) ↦ next bytes ctx
]

-- the part of a function that goes on after an error
abbrev pub and_also : Reply → (Result → List ℕ → KbdContext → Reply) → Reply
and_also reply next = reply >>= λ (result, bytes, ctx). elim result [
  | none ↦ ok (none, bytes, ctx)
  | some r ↦ next r bytes ctx
]

abbrev pub has_ended : CmdContext → Bool
has_ended cmd = elim cmd.state [
  | cmdstate_success ↦ true
  | cmdstate_failed ↦ true
  | cmdstate_queued ↦ false
  | cmdstate_waitingresponse ↦ false
]

-- the command at an address, when its state is the last
unfoldable pub ended_cmd : ℕ → List CmdContext → Option CmdContext
ended_cmd tag [] = none
ended_cmd tag (cmd ∷ cmds) =
    let rest = ended_cmd tag cmds in if (cmd.tag == tag) && has_ended cmd then some cmd else rest

-- `ret` is what `stream_put_char` returned, or 0 if the command was queued behind others.
abbrev pub cmd_result : ℕ → CmdContext → Result
cmd_result ret cmd = elim cmd.state [
  | cmdstate_failed ↦ inl eio
  | cmdstate_success ↦ inr (ret, if cmd.needdata then cmd.responsedata else 0)
  | cmdstate_queued ↦ inr (ret, 0)
  | cmdstate_waitingresponse ↦ inr (ret, 0)
]

abbrev pub free_cmd : ℕ → KbdContext → KbdContext
free_cmd tag ctx = record ctx { freed = ctx.freed ++ tag ∷ [] }

-- the command before it is in the queue
abbrev pub new_cmd : ℕ → Bool → ℕ → Bool → Bool → CmdContext
new_cmd tag with_result cmdbyte noretry async = record {
  tag = tag;
  state = cmdstate_queued;
  noretry = noretry;
  async = async;
  responsedata = 0;
  cmdbyte = cmdbyte;
  resendcount = max_resend_count;
  needdata = with_result;
}

abbrev pub new_context : Kbd → KbdContext
new_context kbd = record {
  state = inputstate_default;
  cmd_queue = [];
  fakelshift_down = false;
  fakenumpadmul_down = false;
  fakelctrl_down = false;
  fakenumlock_down = false;
  keybytes = replicate 8 0;
  next_key_byte_index = 0;
  finished = [];
  freed = [];
  sent = [];
  allocs = 0;
  kbd = kbd;
}

module _ (put_char : List ℕ → ℕ → Errno ⊎ ℕ) where
  -- The loop that waits for a command, and what follows it: the command is freed, whether or not it
  -- failed and whether or not it has left the queue.
  unfoldable pub wait_cmd : ℕ → ℕ → List ℕ → KbdContext → Reply
  wait_cmd ret tag [] ctx = elim (ended_cmd tag (ctx.finished ++ ctx.cmd_queue)) [
    | some cmd ↦ ok (some (cmd_result ret cmd), [], free_cmd tag ctx)
    | none ↦ ok (none, [], ctx)
  ]
  wait_cmd ret tag (byte ∷ bytes) ctx = elim (ended_cmd tag (ctx.finished ++ ctx.cmd_queue)) [
    | some cmd ↦ ok (some (cmd_result ret cmd), byte ∷ bytes, free_cmd tag ctx)
    | none ↦ ps2_op_bytereceived put_char byte ctx >>= wait_cmd ret tag bytes
  ]

  module _ (heap_alloc : ℕ → Bool) where
    -- A command takes the place of `front`; the first of a queue is sent.
    unfoldable pub request_cmd : Bool → ℕ → Bool → Bool → List ℕ → KbdContext → Reply
    request_cmd with_result cmdbyte noretry async bytes ctx =
        let tag = ctx.allocs in
        let cmd = new_cmd tag with_result cmdbyte noretry async in
        let allocated = record ctx { allocs = ctx.allocs + 1 } in
        let end = λ (ret : ℕ) (ctx' : KbdContext).
          if async then ok (some (inr (ret, 0)), bytes, ctx') else wait_cmd ret tag bytes ctx' in
        if async && with_result
        then panicked
        else if heap_alloc tag
        then elim ctx.cmd_queue [
          | [] ↦
              let sending = record allocated {
                cmd_queue = record cmd { state = cmdstate_waitingresponse } ∷ [];
                sent = ctx.sent ++ cmdbyte ∷ [];
              } in
              elim (put_char ctx.sent cmdbyte) [
                | inr ret ↦ end ret sending
                | inl e ↦ ok (some (inl e), bytes, sending)
              ]
          | oldest ∷ cmds ↦ end 0 (record allocated { cmd_queue = ctx.cmd_queue ++ cmd ∷ [] })
        ]
        else ok (some (inl enomem), bytes, allocated)

    unfoldable pub echo : Bool → List ℕ → KbdContext → Reply
    echo async = request_cmd false cmd_echo false async

    unfoldable pub setledstate : ℕ → Bool → List ℕ → KbdContext → Reply
    setledstate leds async bytes ctx =
        and_then (request_cmd false cmd_setleds false async bytes ctx)
          (request_cmd false leds true async)

    unfoldable pub get_scancode_set : List ℕ → KbdContext → Reply
    get_scancode_set bytes ctx =
        and_then (request_cmd false cmd_scancodeset false false bytes ctx)
          (request_cmd true 0 true false)

    unfoldable pub set_scancode_set : ℕ → Bool → List ℕ → KbdContext → Reply
    set_scancode_set set async bytes ctx =
        if set == 0
        then panicked
        else and_then (request_cmd false cmd_scancodeset false async bytes ctx)
            (request_cmd false set true async)

    -- The bits are apart, so that `|=` adds them.
    unfoldable pub kbd_op_updateleds : Bool → Bool → Bool → List ℕ → KbdContext → Reply
    kbd_op_updateleds scroll caps num =
        let led_state =
          (if scroll then 1 else 0) + (if caps then 4 else 0) + (if num then 2 else 0) in
        setledstate led_state true

    -- the test of one scancode set, and then the next part, which is told whether it is supported
    unfoldable pub probe_set :
        ℕ → (Bool → List ℕ → KbdContext → Reply) → List ℕ → KbdContext → Reply
    probe_set set next bytes ctx = and_also (set_scancode_set set false bytes ctx) λ r bytes' ctx'.
        elim r [
          | inl e ↦ next false bytes' ctx'
          | inr v ↦ and_also (get_scancode_set bytes' ctx') λ r' bytes'' ctx''. elim r' [
            | inl e ↦ next false bytes'' ctx''
            | inr current ↦ next (current.1 == set) bytes'' ctx''
          ]
        ]

    -- the loop over the sets; what it finds is only printed
    unfoldable pub probe_sets : (List ℕ → KbdContext → Reply) → List ℕ → KbdContext → Reply
    probe_sets next =
        probe_set 1 (λ supported1. probe_set 2 (λ supported2. probe_set 3 (λ supported3. next)))

    -- `registered` is the result of kbd_register. The context that is freed after an error is kept.
    unfoldable pub ps2kbd_init : Bool → Result → List ℕ → Kbd → Reply
    ps2kbd_init allocated registered bytes kbd =
        if allocated
        then and_then (echo false bytes (new_context kbd)) (λ bytes1 ctx1.
          and_then (setledstate 0 false bytes1 ctx1) (
            probe_sets (λ bytes2 ctx2.
              and_also (set_scancode_set 2 false bytes2 ctx2)
                (λ r bytes3 ctx3. ok (some registered, bytes3, ctx3)))))
        else ok (some (inl enomem), bytes, new_context kbd)

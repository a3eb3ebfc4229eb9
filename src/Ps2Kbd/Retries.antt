-- ===== src/Ps2Kbd/Retries.antt =====
-- kernel/dev/ps2kbd.c: a request that waits for its command, and the RESENDs that it gets.
use yjkos.Prelude.{
  ℕ, zero, suc, ◌+◌, ◌≡◌, refl, sym, ap, ◌∙◌, Bool, true, false, List, [], ◌∷◌, ◌++◌, arith, inl,
  inr, ap₂, ltb, not, ◌&&◌, ◌-◌, ◌≤◌, ◌<◌, if◌then◌else◌, ◌⊎◌, none, some, ok, ◌>>=◌, Errno, eio,
  replicate, append_assoc, append-nil,
}
use yjkos.Ps2Kbd.{
  inputstate_default, ps2_response_ack, ps2_response_resend, cmdstate_waitingresponse,
  cmdstate_success, cmdstate_failed, CmdContext, KbdContext,
}
use yjkos.Ps2Kbd.Replies.{in_cmdstate, stored, resend_received-sent, bytereceived-resend}
use yjkos.Ps2Kbd.Acks.{send-sent}
use yjkos.Ps2Kbd.Commands.{Reply, ended_cmd, wait_cmd, request_cmd, max_resend_count, new_cmd}
use yjkos.Ps2Kbd.Waiting.{IsWaiting, wait_cmd-next, wait_cmd-ack, wait_cmd-gives_up, after-freed}

-- how often the byte of a request is sent again
abbrev pub retries : Bool → ℕ
retries noretry = if noretry then 0 else max_resend_count

-- the request after some RESENDs
record Retried (r : Reply) (ret : ℕ) (bytes : List ℕ) (sends more : ℕ) (cmd : CmdContext)
    (ctx : KbdContext) (put_char : List ℕ → ℕ → Errno ⊎ ℕ) : Type 0 where
  pub last : CmdContext
  pub after : KbdContext
  pub runs : r ≡ wait_cmd put_char ret last.tag bytes after
  pub waits : IsWaiting last after
  pub left : last ≡ record cmd { resendcount = more }
  pub freed : after.freed ≡ ctx.freed
  pub sent : after.sent ≡ ctx.sent ++ replicate sends cmd.cmdbyte

module _ (put_char : List ℕ → ℕ → Errno ⊎ ℕ)
    (takes : (given : List ℕ) (byte : ℕ) → put_char given byte ≡ inr 1) where
  wait_cmd-Retried :
      (ret n more : ℕ) (cmd : CmdContext) (ctx : KbdContext) (bytes : List ℕ)
      → IsWaiting cmd ctx
      → cmd.resendcount ≡ n + more
      → (0 < n → cmd.noretry ≡ false)
      → Retried
          (wait_cmd put_char ret cmd.tag (replicate n ps2_response_resend ++ bytes) ctx)
          ret
          bytes
          n
          more
          cmd
          ctx
          put_char
  wait_cmd-Retried ret zero more cmd ctx bytes v count retry =
      let none_sent : cmd.resendcount ≡ more = omega arith in
      record {
        last = cmd;
        after = ctx;
        runs = refl;
        waits = v;
        left = λ i. record cmd { resendcount = none_sent i };
        freed = refl;
        sent = sym (append-nil ctx.sent);
      }
  wait_cmd-Retried ret (suc n) more cmd ctx bytes v count retry =
      let cmd' : CmdContext = record cmd { resendcount = n + more } in
      let ctx' : KbdContext = record (stored ps2_response_resend ctx) {
        cmd_queue = cmd' ∷ [];
        sent = ctx.sent ++ cmd.cmdbyte ∷ [];
      } in
      let v' : IsWaiting cmd' ctx' = record {
        first = v.first;
        queue = refl;
        waiting = v.waiting;
        waited = v.waited;
        fresh = v.fresh;
      } in
      let may : cmd.noretry ≡ false = retry (omega arith) in
      let t = wait_cmd-Retried ret n more cmd' ctx' bytes v' refl (λ h. may) in
      let bytes' = replicate n ps2_response_resend ++ bytes in
      record {
        last = t.last;
        after = t.after;
        runs =
            wait_cmd-next put_char ret cmd ctx ps2_response_resend bytes' v
            ∙ ap (λ r. r >>= wait_cmd put_char ret cmd.tag bytes')
                (bytereceived-resend put_char ctx v.first
                  ∙ resend_received-sent put_char (stored ps2_response_resend ctx) cmd [] v.queue
                      v.waiting (n + more) (omega arith) may
                  ∙ ap ok (send-sent put_char takes cmd' [] (stored ps2_response_resend ctx)))
            ∙ t.runs;
        waits = t.waits;
        left = t.left;
        freed = t.freed;
        sent = t.sent ∙ append_assoc ctx.sent (cmd.cmdbyte ∷ []) (replicate n cmd.cmdbyte);
      }

  module _ (heap_alloc : ℕ → Bool) (with_result noretry : Bool) (cmdbyte : ℕ) (ctx : KbdContext)
      (allocated : heap_alloc ctx.allocs ≡ true) (first : ctx.state ≡ inputstate_default)
      (no_cmds : ctx.cmd_queue ≡ []) (fresh : ended_cmd ctx.allocs ctx.finished ≡ none) where
    abbrev requested : CmdContext
    requested =
        in_cmdstate cmdstate_waitingresponse (new_cmd ctx.allocs with_result cmdbyte noretry false)

    abbrev requesting : KbdContext
    requesting = record ctx {
      allocs = ctx.allocs + 1;
      cmd_queue = requested ∷ [];
      sent = ctx.sent ++ cmdbyte ∷ [];
    }

    requesting-IsWaiting : IsWaiting requested requesting
    requesting-IsWaiting = record {
      first = first;
      queue = refl;
      waiting = refl;
      waited = refl;
      fresh = fresh;
    }

    request_cmd-waits :
        (bytes : List ℕ)
        → request_cmd put_char heap_alloc with_result cmdbyte noretry false bytes ctx
          ≡ wait_cmd put_char 1 ctx.allocs bytes requesting
    unfolding request_cmd
    request_cmd-waits bytes = rw (request_cmd, allocated, no_cmds, takes ctx.sent cmdbyte) refl

    -- the request after as many RESENDs as it may get
    requested-Retried :
        (n more : ℕ) (bytes : List ℕ)
        → n + more ≡ max_resend_count
        → n ≤ retries noretry
        → Retried
            (wait_cmd put_char 1 ctx.allocs (replicate n ps2_response_resend ++ bytes) requesting)
            1
            bytes
            n
            more
            requested
            requesting
            put_char
    requested-Retried n more bytes count few =
        wait_cmd-Retried 1 n more requested requesting bytes requesting-IsWaiting (sym count)
          (λ some_sent. ground arith)

    -- If the stream takes every byte, the allocation succeeds, the queue is empty, no earlier
    -- command has the new one's address and the input state is the default, then a request that
    -- waits and expects no data and gets an ACK after at most three RESENDs, or after none if it
    -- must not be retried, succeeds with the count that the stream returned, having sent its byte
    -- once more for each RESEND, leaves the bytes that follow and an empty queue, and frees its
    -- command once.
    pub request_cmd-retries :
        (n : ℕ) (rest : List ℕ)
        → with_result ≡ false
        → n ≤ retries noretry
        → (ctx' : KbdContext) × (request_cmd put_char heap_alloc with_result cmdbyte noretry false
              (replicate n ps2_response_resend ++ ps2_response_ack ∷ rest)
              ctx
            ≡ ok (some (inr (1, 0)), rest, ctx'))
          × (ctx'.cmd_queue ≡ [])
          × (ctx'.sent ≡ ctx.sent ++ replicate (suc n) cmdbyte)
          × (ctx'.freed ≡ ctx.freed ++ ctx.allocs ∷ [])
    request_cmd-retries n rest plain few =
        let bytes = ps2_response_ack ∷ rest in
        let t = requested-Retried n (max_resend_count - n) bytes (ground arith) few in
        (
          _,
          request_cmd-waits (replicate n ps2_response_resend ++ bytes)
              ∙ t.runs
              ∙ wait_cmd-ack put_char 1 t.last t.after t.waits rest
                  (ap (λ cmd. cmd.needdata) t.left ∙ plain),
          refl,
          t.sent ∙ append_assoc ctx.sent (cmdbyte ∷ []) (replicate n cmdbyte),
          after-freed put_char 1 t.last t.after t.waits rest cmdstate_success ps2_response_ack
              ∙ ap₂ (λ freed tag. freed ++ tag ∷ []) t.freed (ap (λ cmd. cmd.tag) t.left),
        )

    -- the last RESEND
    no_more :
        (more : ℕ) → retries noretry + more ≡ max_resend_count → (ltb 0 more && not noretry) ≡ false
    no_more more count = ground arith

    -- If the stream takes every byte, the allocation succeeds, the queue is empty, no earlier
    -- command has the new one's address and the input state is the default, then a request that
    -- waits, for data or not, fails with EIO at the fourth RESEND, having sent its byte four times,
    -- or at the first, having sent it once, if it must not be retried; it leaves an empty queue and
    -- frees its command once.
    pub request_cmd-gives_up :
        (rest : List ℕ)
        → (ctx' : KbdContext) × (request_cmd put_char heap_alloc with_result cmdbyte noretry false
              (replicate (retries noretry) ps2_response_resend ++ ps2_response_resend ∷ rest)
              ctx
            ≡ ok (some (inl eio), rest, ctx'))
          × (ctx'.cmd_queue ≡ [])
          × (ctx'.sent ≡ ctx.sent ++ replicate (suc (retries noretry)) cmdbyte)
          × (ctx'.freed ≡ ctx.freed ++ ctx.allocs ∷ [])
    request_cmd-gives_up rest =
        let n = retries noretry in
        let bytes = ps2_response_resend ∷ rest in
        let count : n + (max_resend_count - n) ≡ max_resend_count = ground arith in
        let t = requested-Retried n (max_resend_count - n) bytes count (omega arith) in
        (
          _,
          request_cmd-waits (replicate n ps2_response_resend ++ bytes)
              ∙ t.runs
              ∙ wait_cmd-gives_up put_char 1 t.last t.after t.waits rest (
                  ap (λ cmd. ltb 0 cmd.resendcount && not cmd.noretry) t.left
                  ∙ no_more (max_resend_count - n) count),
          refl,
          t.sent ∙ append_assoc ctx.sent (cmdbyte ∷ []) (replicate n cmdbyte),
          after-freed put_char 1 t.last t.after t.waits rest cmdstate_failed ps2_response_resend
              ∙ ap₂ (λ freed tag. freed ++ tag ∷ []) t.freed (ap (λ cmd. cmd.tag) t.left),
        )

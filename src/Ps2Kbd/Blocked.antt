-- ===== src/Ps2Kbd/Blocked.antt =====
-- kernel/dev/ps2kbd.c: a queue whose oldest command failed, because the stream did not take its
-- byte.
use yjkos.Prelude.{
  ℕ, ◌≡◌, refl, sym, ap, ◌∙◌, Bool, true, false, Bool-cases, inl, inr, List, [], ◌∷◌, ◌++◌, ltb,
  ◌==◌, if◌then◌else◌, Option, Run, ok, panicked, ◌>>=◌, Errno, ◌⊎◌,
}
use mathlib.Core.Path.{subst}
use yjkos.Ps2Kbd.{
  InputState, inputstate_default, inputstate_waiting_responsedata, inputstate_waiting_e0ext,
  inputstate_waiting_e1ext1, inputstate_waiting_e1ext2, inputstate_waiting_normalrelease,
  inputstate_waiting_e0release, inputstate_waiting_e1release1, inputstate_waiting_e1release2,
  cmd_echo, ps2_response_ack, ps2_response_resend, cmdstate_failed, CmdContext, KbdContext,
  in_state,
}
use yjkos.Ps2Kbd.Receive.{
  is_default, is_waitingresponse, store_byte, ack_received, resend_received, echo_received,
  response_byte_received, data_received, dispatch, ps2_op_bytereceived,
}
use yjkos.Ps2Kbd.Commands.{Result, Reply, has_ended, free_cmd, new_cmd, request_cmd}
use yjkos.Ps2Kbd.Data.{
  SameCmds, Keeps, if-Keeps, moved, e0_ext_received-Keeps, e0_release_received-Keeps,
  e1_ext1_received-Keeps, e1_release1_received-Keeps, e1_ext2_received-Keeps,
  e1_release2_received-Keeps, normal_release_received-Keeps, scancode_first_byte_received-Keeps,
}

bind-Keeps :
    (base : KbdContext) (r : Run KbdContext) (f : KbdContext → Run KbdContext)
    → Keeps base r
    → ((ctx : KbdContext) → SameCmds base ctx → Keeps base (f ctx))
    → Keeps base (r >>= f)
bind-Keeps base (ok ctx) f k g = g ctx k
bind-Keeps base panicked f k g = tt

not_waiting : (cmd : CmdContext) → cmd.state ≡ cmdstate_failed → is_waitingresponse cmd ≡ false
not_waiting cmd e = rw e refl

store_byte-Keeps : (byte : ℕ) (ctx : KbdContext) → Keeps ctx (store_byte byte ctx)
unfolding store_byte
store_byte-Keeps byte ctx =
    if-Keeps (ltb (if is_default ctx.state then 0 else ctx.next_key_byte_index) 8) ctx _ panicked
      (record { queue = refl; finished = refl; freed = refl; sent = refl }) tt

module _ (put_char : List ℕ → ℕ → Errno ⊎ ℕ) where
  module _ (base : KbdContext) (oldest : CmdContext) (later : List CmdContext)
      (q : base.cmd_queue ≡ oldest ∷ later) (failed : oldest.state ≡ cmdstate_failed)
      (ctx : KbdContext) (same : SameCmds base ctx) where
    oldest-Keeps :
        (empty : Run KbdContext) (f : CmdContext → List CmdContext → Run KbdContext)
        → Keeps base (f oldest later)
        → Keeps base
            (elim ctx.cmd_queue as (λ x. Run KbdContext) [ [] ↦ empty | cmd ∷ cmds ↦ f cmd cmds ])
    oldest-Keeps empty f k =
        subst
          (λ (queue : List CmdContext).
            Keeps base
              (elim queue as (λ x. Run KbdContext) [ [] ↦ empty | cmd ∷ cmds ↦ f cmd cmds ]))
          (sym (same.queue ∙ q)) k

    ack_received-Keeps : Keeps base (ack_received put_char ctx)
    unfolding ack_received
    ack_received-Keeps = oldest-Keeps (ok ctx) _ (rw failed same)

    resend_received-Keeps : Keeps base (resend_received put_char ctx)
    unfolding resend_received
    resend_received-Keeps = oldest-Keeps (ok ctx) _ (rw failed same)

    echo_received-Keeps : Keeps base (echo_received put_char ctx)
    unfolding echo_received
    echo_received-Keeps = oldest-Keeps (ok ctx) _ (rw failed same)

    response_byte_received-Keeps :
        (byte : ℕ) → Keeps base (response_byte_received put_char byte ctx)
    unfolding response_byte_received
    response_byte_received-Keeps byte =
        oldest-Keeps (ok ctx) _
          (rw failed (moved same (in_state inputstate_default ctx) refl refl refl refl))

    data_received-Keeps :
        (byte : ℕ) (state : InputState) → Keeps base (data_received put_char byte state ctx)
    unfolding data_received
    data_received-Keeps byte inputstate_default =
        scancode_first_byte_received-Keeps byte base ctx same
    data_received-Keeps byte inputstate_waiting_responsedata = response_byte_received-Keeps byte
    data_received-Keeps byte inputstate_waiting_e0ext = e0_ext_received-Keeps byte base ctx same
    data_received-Keeps byte inputstate_waiting_e0release =
        e0_release_received-Keeps byte base ctx same
    data_received-Keeps byte inputstate_waiting_e1ext1 = e1_ext1_received-Keeps byte base ctx same
    data_received-Keeps byte inputstate_waiting_e1release1 =
        e1_release1_received-Keeps byte base ctx same
    data_received-Keeps byte inputstate_waiting_e1ext2 = e1_ext2_received-Keeps byte base ctx same
    data_received-Keeps byte inputstate_waiting_e1release2 =
        e1_release2_received-Keeps byte base ctx same
    data_received-Keeps byte inputstate_waiting_normalrelease =
        normal_release_received-Keeps byte base ctx same

    dispatch-Keeps : (byte : ℕ) → Keeps base (dispatch put_char byte ctx)
    unfolding dispatch
    dispatch-Keeps byte = if-Keeps (byte == ps2_response_ack) base _ _ ack_received-Keeps (
        if-Keeps (byte == ps2_response_resend) base _ _ resend_received-Keeps (
          if-Keeps (byte == cmd_echo) base _ _ echo_received-Keeps
            (data_received-Keeps byte ctx.state)))

  bytereceived-Keeps :
      (byte : ℕ) (ctx : KbdContext) (oldest : CmdContext) (later : List CmdContext)
      → ctx.cmd_queue ≡ oldest ∷ later
      → oldest.state ≡ cmdstate_failed
      → Keeps ctx (ps2_op_bytereceived put_char byte ctx)
  unfolding ps2_op_bytereceived
  bytereceived-Keeps byte ctx oldest later q failed =
      bind-Keeps ctx (store_byte byte ctx) (dispatch put_char byte) (store_byte-Keeps byte ctx)
        (λ ctx' same. dispatch-Keeps ctx oldest later q failed ctx' same byte)

-- The oldest command is still the one that failed, and nothing was sent, finished or freed since.
pub record Blocked (oldest : CmdContext) (base ctx : KbdContext) : Type 0 where
  pub later : List CmdContext
  pub queue : ctx.cmd_queue ≡ oldest ∷ later
  pub finished : ctx.finished ≡ base.finished
  pub freed : ctx.freed ≡ base.freed
  pub sent : ctx.sent ≡ base.sent

-- what a request leaves
abbrev Leaves : (KbdContext → Type 0) → Reply → Type 0
Leaves P (ok (result, bytes, ctx)) = P ctx
Leaves P panicked = Unit

module _ (put_char : List ℕ → ℕ → Errno ⊎ ℕ) (heap_alloc : ℕ → Bool) where
  -- The states that bytes, the driver's own requests and a waiting requester lead to, which frees
  -- its command, the oldest, once it has ended.
  pub data After (base : KbdContext) : KbdContext → Type 0 where
    start : After base base
    received :
        (byte : ℕ) {ctx ctx' : KbdContext}
        → After base ctx
        → ps2_op_bytereceived put_char byte ctx ≡ ok ctx'
        → After base ctx'
    requested :
        (cmdbyte : ℕ) (noretry : Bool) (bytes bytes' : List ℕ) (result : Option Result)
        {ctx ctx' : KbdContext}
        → After base ctx
        → request_cmd put_char heap_alloc false cmdbyte noretry true bytes ctx
          ≡ ok (result, bytes', ctx')
        → After base ctx'
    given_up :
        (cmd : CmdContext) (later : List CmdContext) {ctx : KbdContext}
        → After base ctx
        → ctx.cmd_queue ≡ cmd ∷ later
        → cmd.async ≡ false
        → has_ended cmd ≡ true
        → After base (free_cmd cmd.tag ctx)

  received-Blocked :
      (byte : ℕ) (oldest : CmdContext) (base ctx ctx' : KbdContext)
      → oldest.state ≡ cmdstate_failed
      → Blocked oldest base ctx
      → ps2_op_bytereceived put_char byte ctx ≡ ok ctx'
      → Blocked oldest base ctx'
  received-Blocked byte oldest base ctx ctx' failed b e =
      let same : SameCmds ctx ctx' =
        subst (Keeps ctx) e (bytereceived-Keeps put_char byte ctx oldest b.later b.queue failed) in
      record {
        later = b.later;
        queue = same.queue ∙ b.queue;
        finished = same.finished ∙ b.finished;
        freed = same.freed ∙ b.freed;
        sent = same.sent ∙ b.sent;
      }

  request_cmd-Blocked :
      (cmdbyte : ℕ) (noretry : Bool) (bytes : List ℕ) (oldest : CmdContext) (base ctx : KbdContext)
      → Blocked oldest base ctx
      → Leaves
          (Blocked oldest base)
          (request_cmd put_char heap_alloc false cmdbyte noretry true bytes ctx)
  unfolding request_cmd
  request_cmd-Blocked cmdbyte noretry bytes oldest base ctx b =
      let cmd = new_cmd ctx.allocs false cmdbyte noretry true in
      elim (Bool-cases (heap_alloc ctx.allocs)) [
        | inl h ↦
            rw (request_cmd, h, b.queue)
              (record {
                later = b.later ++ cmd ∷ [];
                queue = ap (λ cmds. cmds ++ cmd ∷ []) b.queue;
                finished = b.finished;
                freed = b.freed;
                sent = b.sent;
              })
        | inr h ↦
            rw (request_cmd, h)
              (record {
                later = b.later;
                queue = b.queue;
                finished = b.finished;
                freed = b.freed;
                sent = b.sent;
              })
      ]

  -- Once the oldest command of the queue is in the failed state and was requested asynchronously,
  -- so that no requester waits for it and frees it, it stays there whatever bytes come and whatever
  -- commands are requested asynchronously, and none of these sends, finishes or frees a command.
  pub After-Blocked :
      (oldest : CmdContext) (base : KbdContext) {ctx : KbdContext}
      → oldest.state ≡ cmdstate_failed
      → oldest.async ≡ true
      → Blocked oldest base base
      → After base ctx
      → Blocked oldest base ctx
  After-Blocked oldest base failed async b start = b
  After-Blocked oldest base failed async b (received byte {ctx} {ctx'} a e) =
      received-Blocked byte oldest base ctx ctx' failed (After-Blocked oldest base failed async b a)
        e
  After-Blocked oldest base failed async b
        (requested cmdbyte noretry bytes bytes' result {ctx} {ctx'} a e) =
      subst (Leaves (Blocked oldest base)) e (
        request_cmd-Blocked cmdbyte noretry bytes oldest base ctx
          (After-Blocked oldest base failed async b a))
  After-Blocked oldest base failed async b (given_up cmd later {ctx} a q waits last) =
      let b' = After-Blocked oldest base failed async b a in
      absurd (other_async (ap first_async (sym b'.queue ∙ q)))
    where
      first_async : List CmdContext → Bool
      first_async [] = true
      first_async (cmd ∷ cmds) = cmd.async

      other_async : oldest.async ≡ cmd.async → ⊥
      other_async same = cc

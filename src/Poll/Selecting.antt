-- ===== src/Poll/Selecting.antt =====
-- src/linux_poll.c: the mask of the guest after pselect, and the sets that it gets back.
use alpine_on_qnx.Prelude.{
  ℕ, ◌≡◌, refl, inl, inr, true, not, ◌&&◌, ◌||◌, Option, none, some, ltb, leb, ◌==◌, ◌^◌,
  Bool-cases, Option-cases,
}
use alpine_on_qnx.Abi.Errno.{eintr}
use alpine_on_qnx.Abi.Answer.{from_errno, einval}
use alpine_on_qnx.Poll.Select.{
  SelectCall, SelectRequest, SelectResult, Timeval, select_failed, selected, finish_select,
  select_request, select_timeout, select_wait, do_select,
}
use alpine_on_qnx.Poll.Wait.{WaitHost, Caller, Begun, refused, waiting, begin_wait}
use alpine_on_qnx.Signal.{Host}
use alpine_on_qnx.Thread.{SignalSet, ThreadState}
use alpine_on_qnx.Poll.Masked.{
  IsAtRest, Settled, Settled-same, calling, Ready, eintr_only, begin_wait-Ready, end_wait-Settled,
}

finish_select_interrupted :
    (c : SelectCall) (fd : Option ℕ) (r : SelectResult)
    → (finish_select c fd r).0 ≡ true
    → (finish_select c fd r).1 ≡ from_errno eintr
unfolding finish_select
finish_select_interrupted c fd (select_failed e) h = eintr_only e h
finish_select_interrupted c none (selected s) h = absurd cc
finish_select_interrupted c (some fd) (selected s) h =
    elim (Bool-cases (not (s.count == 0) && s.read_set fd)) [
      | inl e ↦ rw e refl
      | inr e ↦ absurd (cc (rw e at h))
    ]

-- A call of pselect that is given a mask.
abbrev pub with_mask : SelectCall → Option SignalSet × ℕ → SelectCall
with_mask c mask = record c { pselect_call = true; mask = some mask }

module _ (h : Host) (w : WaitHost) (fd_setsize : ℕ) (select : SelectRequest → SelectResult)
    (call : SelectCall) (mask : Option SignalSet × ℕ) (t : ThreadState) (m : SignalSet)
    (rest : IsAtRest t) where
  abbrev c : SelectCall
  c = with_mask call mask

  select_wait-Settled :
      (timeout : Option Timeval)
      → let end = select_wait h w fd_setsize select c timeout (calling t m) in
        Settled t.signal_mask m end.answer end.caller
  unfolding select_wait
  select_wait-Settled timeout =
      begun begin.0 refl (begin_wait-Ready h w (some fd_setsize) mask.0 mask.1 m t rest)
    where
      begin : Begun × Caller
      begin = begin_wait h w (some fd_setsize) mask.0 mask.1 (calling t m)

      begun :
          (b : Begun)
          → begin.0 ≡ b
          → Ready t m b begin.1
          → let end = select_wait h w fd_setsize select c timeout (calling t m) in
            Settled t.signal_mask m end.answer end.caller
      begun (refused answer) f ready = rw (f, select_wait) ready
      begun (waiting fd old old_host) f ready =
          let r = finish_select c (some fd) (select (select_request c timeout (some fd))) in
          rw (f, select_wait)
            (end_wait-Settled h w r.0 t m fd old old_host r.1 begin.1 ready
              (finish_select_interrupted c (some fd) (select (select_request c timeout (some fd)))))

  -- However pselect ends that is given a mask, for a thread that no call has left with a mask to bring
  -- back: the mask of the thread is the old one, or the call says EINTR and the old mask is kept for
  -- the handler of the signal to bring back; the mask that the host has for the thread is the old one,
  -- whatever the handlers of signals did to it; no pipe is left open.
  pub do_select-Settled :
      let end = do_select h w fd_setsize select c (calling t m) in
      Settled t.signal_mask m end.answer end.caller
  unfolding do_select
  do_select-Settled = elim (Bool-cases (leb (2 ^ 31) c.count || ltb fd_setsize c.count)) [
    | inl bad ↦ rw (bad, do_select) (Settled-same einval t m rest)
    | inr good ↦ elim (Option-cases (select_timeout c)) [
      | inl e ↦ rw (good, e, do_select) (Settled-same einval t m rest)
      | inr (timeout, e) ↦ rw (good, e, do_select) (select_wait-Settled timeout)
    ]
  ]

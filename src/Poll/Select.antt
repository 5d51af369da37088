-- ===== src/Poll/Select.antt =====
-- src/linux_poll.c: do_select, and the numbers of the calls.
use alpine_on_qnx.Prelude.{
  ℕ, ◌/◌, ◌^◌, Bool, true, false, not, ◌&&◌, ◌||◌, Option, none, some, ltb, leb, ◌==◌,
  if◌then◌else◌,
}
use alpine_on_qnx.Abi.Errno.{Errno, eintr}
use alpine_on_qnx.Abi.Answer.{Answer, value, from_errno, einval}
use alpine_on_qnx.Futex.Deadline.{Timespec}
use alpine_on_qnx.Poll.FdSets.{FdSet, FdWords, fdset_to_host, fdset_to_guest}
use alpine_on_qnx.Poll.Timeout.{is_negative}
use alpine_on_qnx.Poll.Wait.{WaitHost, Caller, refused, waiting, begin_wait, end_wait, arrive}
use alpine_on_qnx.Signal.{Host}
use alpine_on_qnx.Thread.{SignalSet}
use alpine_on_qnx.Poll.Calls.{is_eintr}

-- `struct timeval`
pub record Timeval : Type 0 where
  pub tv_sec : ℕ
  pub tv_usec : ℕ

-- How `select` ends: with an error, or with a count, the three sets, and the time that is left.
pub record Selected : Type 0 where
  pub count : ℕ
  pub read_set : FdSet
  pub write_set : FdSet
  pub except_set : FdSet
  pub left : Timeval

pub data SelectResult : Type 0 where
  select_failed : Errno → SelectResult
  selected : Selected → SelectResult

-- The arguments of `do_select`; a null pointer is `none`. The mask of pselect has a pointer of its
-- own.
pub record SelectCall : Type 0 where
  pub count : ℕ
  pub read_words : Option FdWords
  pub write_words : Option FdWords
  pub except_words : Option FdWords
  pub timeout : Option Timespec
  pub mask : Option (Option SignalSet × ℕ)
  pub pselect_call : Bool
  pub time64 : Bool

-- What the host's `select` is asked to wait for.
pub record SelectRequest : Type 0 where
  pub read_set : FdSet
  pub write_set : FdSet
  pub except_set : FdSet
  pub timeout : Option Timeval

-- `none` is -EINVAL, and a missing timeout no limit. LONG_MAX is 2 ^ 31 - 1.
unfoldable pub select_timeout : SelectCall → Option (Option Timeval)
select_timeout c = elim c.timeout [
  | none ↦ some none
  | some t ↦
      if is_negative c.time64 t.seconds
        || is_negative c.time64 t.nanoseconds
        || leb (if c.pselect_call then 1000000000 else 1000000) t.nanoseconds
        || leb (2 ^ 31) t.seconds
      then none
      else some (
          some (record {
            tv_sec = t.seconds;
            tv_usec = if c.pselect_call then t.nanoseconds / 1000 else t.nanoseconds;
          }))
]

-- What a call gives: the answer, and the guest's words and the caller.
pub record SelectEnd : Type 0 where
  pub answer : Answer
  pub call : SelectCall
  pub caller : Caller

abbrev store_words : Option FdWords → ℕ → FdSet → Option FdWords
store_words none count set = none
store_words (some words) count set = some (fdset_to_guest words count set)

-- What is written to the guest after a success.
unfoldable pub store_selected : SelectCall → Selected → SelectCall
store_selected c s =
    let left : Timespec = record { seconds = s.left.tv_sec; nanoseconds = s.left.tv_usec } in
    let timeout : Option Timespec = elim c.timeout [
      | none ↦ none
      | some t ↦ if c.pselect_call then some t else some left
    ] in
    record c {
      read_words = store_words c.read_words c.count s.read_set;
      write_words = store_words c.write_words c.count s.write_set;
      except_words = store_words c.except_words c.count s.except_set;
      timeout = timeout;
    }

-- The result of `select`, with the descriptor of a wait for signals: whether a signal has
-- interrupted it, the answer, and what the guest then has.
unfoldable pub finish_select : SelectCall → Option ℕ → SelectResult → Bool × Answer × SelectCall
finish_select c signal_wait_fd (select_failed e) = (is_eintr e, from_errno e, c)
finish_select c signal_wait_fd (selected s) =
    let woken : Bool = elim signal_wait_fd [
      | none ↦ false
      | some fd ↦ not (s.count == 0) && s.read_set fd
    ] in
    if woken then (true, from_errno eintr, c) else (false, value s.count, store_selected c s)

abbrev add_fd : Option ℕ → FdSet → FdSet
add_fd none set n = set n
add_fd (some fd) set n = if n == fd then true else set n

abbrev pub select_request : SelectCall → Option Timeval → Option ℕ → SelectRequest
select_request c timeout signal_wait_fd = record {
  read_set = add_fd signal_wait_fd (fdset_to_host c.read_words c.count);
  write_set = fdset_to_host c.write_words c.count;
  except_set = fdset_to_host c.except_words c.count;
  timeout = timeout;
}

-- The wait itself, and what comes after it.
unfoldable pub select_wait :
    Host
    → WaitHost
    → ℕ
    → (SelectRequest → SelectResult)
    → SelectCall
    → Option Timeval
    → Caller
    → SelectEnd
select_wait h w fd_setsize select c timeout caller =
    let plain = finish_select c none (select (select_request c timeout none)) in
    let unmasked : SelectEnd = record {
      answer = plain.1;
      call = plain.2;
      caller = arrive w caller;
    } in
    let masked : SelectEnd = elim c.mask [
      | none ↦ unmasked
      | some (guest_set, signal_set_size) ↦
          let (begun, ready) = begin_wait h w (some fd_setsize) guest_set signal_set_size caller in
          elim begun [
            | refused answer ↦ record { answer = answer; call = c; caller = ready }
            | waiting fd old_words old ↦
                let (interrupted, answer, call) =
                  finish_select c (some fd) (select (select_request c timeout (some fd))) in
                record {
                  answer = answer;
                  call = call;
                  caller = end_wait interrupted old_words old (arrive w ready);
                }
          ]
    ] in
    if c.pselect_call then masked else unmasked

-- A count that is negative as an `int` is at least 2 ^ 31.
unfoldable pub do_select :
    Host → WaitHost → ℕ → (SelectRequest → SelectResult) → SelectCall → Caller → SelectEnd
do_select h w fd_setsize select c caller =
    if leb (2 ^ 31) c.count || ltb fd_setsize c.count
    then record { answer = einval; call = c; caller = caller }
    else elim (select_timeout c) [
      | none ↦ record { answer = einval; call = c; caller = caller }
      | some timeout ↦ select_wait h w fd_setsize select c timeout caller
    ]

-- The calls by their numbers: LINUX_NR_POLL, LINUX_NR_PPOLL, LINUX_NR_PPOLL_TIME64, LINUX_NR_SELECT,
-- LINUX_NR_PSELECT6 and LINUX_NR_PSELECT6_TIME64; any other number that comes here is
-- LINUX_NR_NEWSELECT. The flag is that of 64-bit times.
pub data PollNumber : Type 0 where
  poll_number : PollNumber
  ppoll_number : Bool → PollNumber
  old_select : PollNumber
  new_select : PollNumber
  pselect_number : Bool → PollNumber

unfoldable pub poll_number_of : ℕ → PollNumber
poll_number_of number =
    if number == 168
    then poll_number
    else if number == 336 || number == 414
    then ppoll_number (number == 414)
    else if number == 82
    then old_select
    else if number == 335 || number == 413
    then pselect_number (number == 413)
    else new_select

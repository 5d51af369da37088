-- ===== src/Poll/Events.antt =====
-- src/linux_poll.c: the bits of the events on both sides.
use Prim.Native.Nat.{bit_or}
use alpine_on_qnx.Prelude.{ℕ, Bool, false, ◌||◌, if◌then◌else◌}
use alpine_on_qnx.Words.{has_flag}

-- A `short` of the host, by the bits that the code names: POLLRDNORM, POLLRDBAND, POLLPRI, POLLOUT,
-- POLLWRBAND, POLLERR, POLLHUP and POLLNVAL.
pub record HostEvents : Type 0 where
  pub rdnorm : Bool
  pub rdband : Bool
  pub pri : Bool
  pub out : Bool
  pub wrband : Bool
  pub err : Bool
  pub hup : Bool
  pub nval : Bool

unfoldable pub poll_events_to_host : ℕ → HostEvents
poll_events_to_host value = record {
  rdnorm = has_flag value 0x041;
  rdband = has_flag value 0x080;
  pri = has_flag value 0x002;
  out = has_flag value 0x104;
  wrband = has_flag value 0x200;
  err = false;
  hup = false;
  nval = false;
}

abbrev bits_if : Bool → ℕ → ℕ
bits_if b bits = if b then bits else 0

unfoldable pub poll_events_to_linux : HostEvents → ℕ
poll_events_to_linux v = bit_or (bits_if v.rdnorm 0x041) (
    bit_or (bits_if v.rdband 0x081) (
      bit_or (bits_if v.pri 0x002) (
        bit_or (bits_if v.out 0x104) (
          bit_or (bits_if v.wrband 0x200)
            (bit_or (bits_if v.err 0x008) (bit_or (bits_if v.hup 0x010) (bits_if v.nval 0x020)))))))

-- `revents != 0`
abbrev pub any_event : HostEvents → Bool
any_event v = v.rdnorm || v.rdband || v.pri || v.out || v.wrband || v.err || v.hup || v.nval

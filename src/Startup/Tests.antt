-- ===== src/Startup/Tests.antt =====
-- Tests of the first stack of the guest.
use alpine_on_qnx.Prelude.{◌≡◌, refl, true, Option, none, some, List, [], ◌∷◌, arith}
use alpine_on_qnx.Words.{align_down}
use alpine_on_qnx.Elf.Image.{GuestImage}
use alpine_on_qnx.GuestPath.{Bytes}
use alpine_on_qnx.Startup.Stack.{
  Identity, Built, starts_with, guest_environment_entry, guest_environment, push_bytes,
  push_environment, push_arguments, auxiliary, finish_stack, build_stack,
}
use alpine_on_qnx.Startup.Started.{IsStack, build_stack-IsStack}

abbrev somebody : Identity
somebody = record { uid = 1000; euid = 1000; gid = 100; egid = 100; page_size = 4096 }

abbrev image : GuestImage
image = record {
  entry = 0x20000010;
  start_entry = 0x20000010;
  interpreter_base = 0;
  program_headers = 0;
  program_header_size = 32;
  program_header_count = 1;
  initial_brk = 0x20001000;
}

-- `sh`, with `A=1` and a name of the emulator in the environment.
abbrev command : List Bytes
command = (b's' ∷ b'h' ∷ []) ∷ []

abbrev variables : List Bytes
variables =
    (b'L' ∷ b'I' ∷ b'N' ∷ b'U' ∷ b'X' ∷ b'E' ∷ b'M' ∷ b'U' ∷ b'_' ∷ b'A' ∷ [])
    ∷ (b'A' ∷ b'=' ∷ b'1' ∷ [])
    ∷ []

abbrev random : Bytes
random = 1 ∷ 2 ∷ 3 ∷ 4 ∷ 5 ∷ 6 ∷ 7 ∷ 8 ∷ 9 ∷ 10 ∷ 11 ∷ 12 ∷ 13 ∷ 14 ∷ 15 ∷ 16 ∷ []

hidden : guest_environment variables ≡ (b'A' ∷ b'=' ∷ b'1' ∷ []) ∷ []
unfolding guest_environment guest_environment_entry starts_with
hidden = refl

abbrev no_stack : Built
no_stack = record {
  start = 0;
  arguments = [];
  environment = [];
  random_address = 0;
  vector = [];
  bytes = λ a. 0;
}

abbrev found : Option Built → Built
found none = no_stack
found (some b) = b

abbrev attempted : Option Built
attempted = build_stack 0x30000000 somebody image true (some random) command variables (λ a. 0)

succeeds : attempted ≡ some (found attempted)
unfolding build_stack push_environment push_arguments push_bytes finish_stack guest_environment
    guest_environment_entry starts_with auxiliary align_down
succeeds = refl

build_stack-IsStack_example :
    (r : Bytes) × (some random ≡ some r)
    × IsStack 0x30000000 somebody image r command variables (λ a. 0) (found attempted)
build_stack-IsStack_example =
    build_stack-IsStack 0x30000000 somebody image (some random) command variables (λ a. 0) true
      (found attempted) (omega arith) (omega arith) succeeds

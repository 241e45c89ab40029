-- ===== src/Edge/Startup/Tests.antt =====
-- A daemon that starts for the first time, on a kernel that refuses to be hardened.
use oetp.Prelude.{◌≡◌, refl, false, none, utf8, beq}
use oetp.Result.{ok}
use oetp.Crates.Toy.{toy, toy-PatternLaw, toy-HexLaw, hex_value}
use oetp.Device.{zeros, DeviceX25519Key, from_bytes, from_bytes_x25519}
use oetp.Edge.Config.{read_key_file, load_device_x25519_key, is_utf8}
use oetp.Edge.Config.Tests.{env, bytes, config, configured, disk, device_key_loaded}
use oetp.Edge.Kernel.{Kernel, linux_process_guard}
use oetp.Edge.State
use oetp.Edge.State.{AppState}
use oetp.Edge.Startup.{Started, main}
use oetp.Edge.Startup.Initial.{IsStarted, main-IsStarted}

abbrev kernel : Kernel
kernel = record { returned = λ call. 1; no_memory = false }

abbrev x25519_key : DeviceX25519Key
x25519_key = record {
  device_id = utf8 "dev-1";
  public_key = toy.x25519_public bytes;
  private_key = bytes;
}

x25519_key_loaded : load_device_x25519_key toy disk config ≡ ok x25519_key
unfolding load_device_x25519_key read_key_file from_bytes_x25519 is_utf8 hex_value utf8 beq zeros
x25519_key_loaded = refl

abbrev state : AppState
state = State.new toy config (from_bytes toy (utf8 "dev-1") bytes) x25519_key none none

abbrev first_start : Started
first_start = record {
  state = state;
  core_dumps = (linux_process_guard kernel).disable_core_dumps;
  ptrace = (linux_process_guard kernel).restrict_ptrace;
}

runs : main toy env disk (linux_process_guard kernel) none none ≡ ok first_start
unfolding main
runs = rw configured (rw device_key_loaded (rw x25519_key_loaded refl))

main-IsStarted_example : IsStarted toy toy-PatternLaw toy-HexLaw disk none none first_start.state
main-IsStarted_example =
    main-IsStarted toy toy-PatternLaw toy-HexLaw env disk (linux_process_guard kernel) none none
      runs

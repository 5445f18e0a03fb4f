-- ===== src/Forwarder.antt =====
-- devil/devil/android/forwarder.py: class Forwarder, the singleton that forwards device ports to the
-- host. host_forwarder, the device and the lock file are a `Tools`; logging is left out.
pub mod Inverse
pub mod Methods
pub mod Trace
mod Samples
use udroid.Prelude.{
  ℕ, zero, suc, Bool, true, false, not, ◌&&◌, Option, none, some, List, [], ◌∷◌, ◌++◌, Text,
  is_empty, text_eq, contains, difference, if◌then◌else◌, ℤ, pos, same_int, int_of, split, Table,
  get, put, remove,
}
use udroid.Prelude.Effects.{Outcome, ok, err, Exec, pure, raise, continue, ◌>>=◌, ◌>>◌, when}

-- What calls of the device, of devil_env and of the lock file raise.
pub data ToolError : Type 0 where
  command_failed_error device_unreachable_error other_error : ToolError

pub data Failure : Type 0 where
  tool_error : ToolError → Failure
  host_forwarder_error os_error key_error : Failure
  value_error assertion_error unbound_local_error : Failure

-- How a run of host_forwarder or pkill ends.
pub data HostRun : Type 0 where
  exited : ℕ → Text → HostRun
  run_timed_out not_built run_os_error : HostRun

-- The arguments of host_forwarder, and the call of pkill.
pub data HostCommand : Type 0 where
  map_ports : Text → ℤ → ℤ → HostCommand
  unmap_port : Text → ℤ → HostCommand
  unmap_all_ports : Text → HostCommand
  kill_server pkill : HostCommand

pub record Tools (W : Type 0) : Type 0 where
  pub run : HostCommand → W → HostRun × W
  pub fetch_host_path : Exec ToolError W (Unit {0})
  pub host_path_exists : W → Bool
  pub is_our_host : Exec ToolError W Bool
  pub write_pid : Exec ToolError W (Unit {0})
  pub device_forwarder_exists : Text → Exec ToolError W Bool
  pub kill_device_forwarder : Text → Exec ToolError W (Unit {0})
  pub reboot : Text → Exec ToolError W (Unit {0})
  pub push_device_forwarder : Text → Exec ToolError W (Unit {0})
  pub start_device_forwarder : Text → Exec ToolError W (Unit {0})
  pub log_map_failure : Text → Exec ToolError W (Unit {0})

-- A device's serial and a port of it.
abbrev pub SerialWithPort : Type 0
SerialWithPort = Text × ℤ

abbrev pub same_port : SerialWithPort → SerialWithPort → Bool
same_port a b = text_eq a.0 b.0 && same_int a.1 b.1

pub record Forwarder : Type 0 where
  pub initialized_devices : List Text
  pub device_to_host_port_map : Table SerialWithPort ℤ
  pub host_to_device_port_map : Table ℤ SerialWithPort

-- What the methods that hold the lock work on: the instance and the world.
pub record Held (W : Type 0) : Type 0 where
  pub forwarder : Forwarder
  pub world : W

-- `_instance` and the world.
pub record Process (W : Type 0) : Type 0 where
  pub instance_ : Option Forwarder
  pub world : W

abbrev pub new_forwarder : Forwarder
new_forwarder = record {
  initialized_devices = [];
  device_to_host_port_map = [];
  host_to_device_port_map = [];
}

-- Map's last assignments.
unfoldable pub record_ports : Text → ℤ → ℤ → Forwarder → Forwarder
record_ports serial device_port host_port f = record f {
  device_to_host_port_map = put same_port (serial, device_port) host_port f.device_to_host_port_map;
  host_to_device_port_map = put same_int host_port (serial, device_port) f.host_to_device_port_map;
}

abbrev pub forget_port : SerialWithPort → ℤ → Forwarder → Forwarder
forget_port port host_port f = record f {
  device_to_host_port_map = remove same_port port f.device_to_host_port_map;
  host_to_device_port_map = remove same_int host_port f.host_to_device_port_map;
}

-- `del device_map[port]; del host_map[host_port]`, each a KeyError if the key is not there. The
-- first is gone when the second raises.
unfoldable pub delete_port : SerialWithPort → ℤ → Forwarder → Outcome Failure (Unit {0}) × Forwarder
delete_port port host_port f = elim (get same_port port f.device_to_host_port_map) [
  | none ↦ (err key_error, f)
  | some _ ↦ elim (get same_int host_port f.host_to_device_port_map) [
    | none ↦ (
      err key_error,
      record f { device_to_host_port_map = remove same_port port f.device_to_host_port_map },
    )
    | some _ ↦ (ok tt, forget_port port host_port f)
  ]
]

abbrev pub delete_if :
    Bool → SerialWithPort → ℤ → Forwarder → Outcome Failure (Unit {0}) × Forwarder
delete_if true port host_port f = delete_port port host_port f
delete_if false port host_port f = (ok tt, f)

-- The loop of UnmapAllDevicePorts over the items that were there at its start.
unfoldable pub delete_device :
    Text → Table SerialWithPort ℤ → Forwarder → Outcome Failure (Unit {0}) × Forwarder
unfolding delete_port
delete_device serial [] f = (ok tt, f)
delete_device serial ((port, host_port) ∷ items) f =
    continue (delete_if (text_eq port.0 serial) port host_port f) (λ _. delete_device serial items)

-- `device_port:host_port`, as Map reads it: the two numbers, or an exception.
abbrev pub ports_of : List Text → Outcome Failure (ℤ × ℤ)
ports_of (device_port ∷ host_port ∷ []) = elim (int_of device_port) [
  | none ↦ err value_error
  | some d ↦ elim (int_of host_port) [ none ↦ err value_error | some h ↦ ok (d, h) ]
]
ports_of _ = err host_forwarder_error

unfoldable pub parse_ports : Text → Outcome Failure (ℤ × ℤ)
parse_ports output = ports_of (split b':' output)

module _ {W : Type 0} (tools : Tools W) where
  abbrev pub Locked : Type 0 → Type 0
  Locked A = Exec Failure (Held W) A

  abbrev pub failure_of : {A : Type 0} → Outcome ToolError A → Outcome Failure A
  failure_of (ok a) = ok a
  failure_of (err e) = err (tool_error e)

  -- A call of a tool; its exception passes through.
  abbrev pub call_tool : {A : Type 0} → Exec ToolError W A → Exec Failure W A
  call_tool call w = let (r, w') = call w in (failure_of r, w')

  abbrev pub lift_result :
      {A : Type 0} → Forwarder → Outcome Failure A × W → Outcome Failure A × Held W
  lift_result f (r, w) = (r, record { forwarder = f; world = w })

  -- A call that leaves the instance alone.
  abbrev pub lift : {A : Type 0} → Exec Failure W A → Locked A
  lift call s = lift_result s.forwarder (call s.world)

  abbrev pub changed : {A : Type 0} → W → Outcome Failure A × Forwarder → Outcome Failure A × Held W
  changed w (r, f) = (r, record { forwarder = f; world = w })

  -- A change of the instance alone.
  abbrev pub on_forwarder : {A : Type 0} → Exec Failure Forwarder A → Locked A
  on_forwarder call s = changed s.world (call s.forwarder)

  abbrev pub run_host : HostCommand → Exec Failure W HostRun
  run_host command w = let (result, w') = tools.run command w in (ok result, w')

  -- `_KillDeviceLocked`
  unfoldable pub kill_device_locked : Text → Locked (Unit {0})
  kill_device_locked serial = do
    on_forwarder (λ f.
        (ok tt, record f { initialized_devices = difference f.initialized_devices (serial ∷ []) }))
    there ← lift (call_tool (tools.device_forwarder_exists serial))
    when there (lift (call_tool (tools.kill_device_forwarder serial)))

  -- `except device_errors.CommandFailedError`: the device is rebooted.
  abbrev pub or_reboot :
      Text → Outcome Failure (Unit {0}) × Held W → Outcome Failure (Unit {0}) × Held W
  or_reboot serial (err (tool_error command_failed_error), s) =
      lift (call_tool (tools.reboot serial)) s
  or_reboot serial (r, s) = (r, s)

  abbrev pub initialize : Text → Locked (Unit {0})
  initialize serial = do
    λ s. or_reboot serial (kill_device_locked serial s)
    lift (call_tool (tools.push_device_forwarder serial))
    lift (call_tool (tools.start_device_forwarder serial))
    on_forwarder (λ f. (ok tt, record f { initialized_devices = serial ∷ f.initialized_devices }))

  -- `_InitDeviceLocked`
  unfoldable pub init_device_locked : Text → Locked (Unit {0})
  unfolding kill_device_locked
  init_device_locked serial s =
      if contains serial s.forwarder.initialized_devices then (ok tt, s) else initialize serial s

  -- The `except` clause hides no exception: its message names a variable that is not bound there.
  abbrev pub after_failed_map :
      Text → Outcome Failure (Unit {0}) × Held W → Outcome Failure (Unit {0}) × Held W
  after_failed_map serial (err (tool_error command_failed_error), s) = (err unbound_local_error, s)
  after_failed_map serial (err (tool_error device_unreachable_error), s) =
      (err unbound_local_error, s)
  after_failed_map serial (err e, s) = (err e, s)
  after_failed_map serial (ok _, s) =
      continue (lift (call_tool (tools.log_map_failure serial)) s) (λ _. raise host_forwarder_error)

  abbrev pub record_parsed : Text → Outcome Failure (ℤ × ℤ) → Locked (Unit {0})
  record_parsed serial (err e) s = (err e, s)
  record_parsed serial (ok (device_port, host_port)) s =
      (ok tt, record s { forwarder = record_ports serial device_port host_port s.forwarder })

  -- What Map makes of the run of host_forwarder.
  abbrev pub after_map : Text → HostRun → Locked (Unit {0})
  after_map serial run_timed_out s = (err host_forwarder_error, s)
  after_map serial not_built s = (err host_forwarder_error, s)
  after_map serial run_os_error s = (err os_error, s)
  after_map serial (exited zero output) s = record_parsed serial (parse_ports output) s
  after_map serial (exited (suc n) output) s = after_failed_map serial (kill_device_locked serial s)

  -- The body of Map's loop.
  unfoldable pub map_one : Text → ℤ × ℤ → Locked (Unit {0})
  unfolding kill_device_locked record_ports parse_ports
  map_one serial (device_port, host_port) = do
    result ← lift (run_host (map_ports serial device_port host_port))
    after_map serial result

  unfoldable pub map_all : Text → List (ℤ × ℤ) → Locked (Unit {0})
  unfolding map_one
  map_all serial [] s = (ok tt, s)
  map_all serial (pair ∷ pairs) s = continue (map_one serial pair s) (λ _. map_all serial pairs)

  abbrev pub after_unmap : HostRun → Locked (Unit {0})
  after_unmap run_timed_out s = (err host_forwarder_error, s)
  after_unmap not_built s = (err os_error, s)
  after_unmap run_os_error s = (err os_error, s)
  after_unmap (exited n output) s = (ok tt, s)

  -- `_UnmapDevicePortLocked`; a port that is not forwarded is only logged.
  unfoldable pub unmap_device_port_locked : ℤ → Text → Locked (Unit {0})
  unfolding delete_port
  unmap_device_port_locked device_port serial s =
      elim (get same_port (serial, device_port) s.forwarder.device_to_host_port_map) [
        | none ↦ (ok tt, s)
        | some host_port ↦
            continue (on_forwarder (delete_port (serial, device_port) host_port) s)
              (λ _ s1. continue (lift (run_host (unmap_port serial device_port)) s1) after_unmap)
      ]

  abbrev pub after_unmap_all : Text → HostRun → Locked (Unit {0})
  after_unmap_all serial run_timed_out s = (err host_forwarder_error, s)
  after_unmap_all serial not_built s = (err os_error, s)
  after_unmap_all serial run_os_error s = (err os_error, s)
  after_unmap_all serial (exited (suc n) output) s = (err host_forwarder_error, s)
  after_unmap_all serial (exited zero output) s =
      continue (on_forwarder (delete_device serial s.forwarder.device_to_host_port_map) s)
        (λ _. kill_device_locked serial)

  unfoldable pub unmap_all_locked : Text → Locked (Unit {0})
  unfolding delete_device kill_device_locked
  unmap_all_locked serial = do
    result ← lift (run_host (unmap_all_ports serial))
    after_unmap_all serial result

  abbrev pub after_pkill : HostRun → Exec Failure W (Unit {0})
  after_pkill (exited zero output) w = (ok tt, w)
  after_pkill (exited (suc n) output) w = (err host_forwarder_error, w)
  after_pkill run_timed_out w = (err host_forwarder_error, w)
  after_pkill not_built w = (err os_error, w)
  after_pkill run_os_error w = (err os_error, w)

  abbrev pub after_kill_server : HostRun → Exec Failure W (Unit {0})
  after_kill_server (exited zero output) w = (ok tt, w)
  after_kill_server (exited (suc n) output) w = continue (run_host pkill w) after_pkill
  after_kill_server run_timed_out w = (err host_forwarder_error, w)
  after_kill_server not_built w = (err os_error, w)
  after_kill_server run_os_error w = (err os_error, w)

  -- `_KillHostLocked`
  unfoldable pub kill_host_locked : Exec Failure W (Unit {0})
  kill_host_locked = do result ← run_host kill_server; after_kill_server result

  abbrev pub unless_ours : Bool → Exec Failure W (Unit {0})
  unless_ours true = pure tt
  unless_ours false = do kill_host_locked; call_tool tools.write_pid

  -- `_InitHostLocked`
  unfoldable pub init_host_locked : Exec Failure W (Unit {0})
  unfolding kill_host_locked
  init_host_locked = do ours ← call_tool tools.is_our_host; unless_ours ours

  abbrev pub assert_built : Exec Failure W (Unit {0})
  assert_built w = (if tools.host_path_exists w then ok tt else err assertion_error, w)

  -- `__init__`
  unfoldable pub construct : Exec Failure W Forwarder
  unfolding init_host_locked
  construct = do call_tool tools.fetch_host_path; assert_built; init_host_locked; pure new_forwarder

  abbrev pub release : {A : Type 0} → Outcome Failure A × Held W → Outcome Failure A × Process W
  release (r, s) = (r, record { instance_ = some s.forwarder; world = s.world })

  abbrev pub constructed :
      {A : Type 0} → Locked A → Outcome Failure Forwarder × W → Outcome Failure A × Process W
  constructed call (ok f, w) = release (call (record { forwarder = f; world = w }))
  constructed call (err e, w) = (err e, record { instance_ = none; world = w })

  -- A method under the lock, on the instance that `_GetInstanceLocked` gives.
  unfoldable pub with_instance : {A : Type 0} → Locked A → Exec Failure (Process W) A
  unfolding construct
  with_instance call p = elim p.instance_ [
    | none ↦ constructed call (construct p.world)
    | some f ↦ release (call (record { forwarder = f; world = p.world }))
  ]

  abbrev pub map_locked : Text → List (ℤ × ℤ) → Locked (Unit {0})
  map_locked serial pairs = do init_device_locked serial; map_all serial pairs

  -- `Map`
  unfoldable pub map_device_ports : Text → List (ℤ × ℤ) → Exec Failure (Process W) (Unit {0})
  unfolding with_instance init_device_locked map_all
  map_device_ports serial pairs = with_instance (map_locked serial pairs)

  -- `UnmapDevicePort`
  unfoldable pub unmap_device_port : ℤ → Text → Exec Failure (Process W) (Unit {0})
  unfolding with_instance unmap_device_port_locked
  unmap_device_port device_port serial = with_instance (unmap_device_port_locked device_port serial)

  -- `UnmapAllDevicePorts`
  unfoldable pub unmap_all_device_ports : Text → Exec Failure (Process W) (Unit {0})
  unfolding with_instance unmap_all_locked
  unmap_all_device_ports serial = with_instance (unmap_all_locked serial)

  abbrev pub port_of : Option SerialWithPort → Option ℤ
  port_of none = none
  port_of (some port) = some port.1

  -- `DevicePortForHostPort`
  unfoldable pub device_port_for_host_port : ℤ → Exec Failure (Process W) (Option ℤ)
  unfolding with_instance
  device_port_for_host_port host_port =
      with_instance
        (λ s. (ok (port_of (get same_int host_port s.forwarder.host_to_device_port_map)), s))

  -- `KillDevice`
  unfoldable pub kill_device : Text → Exec Failure (Process W) (Unit {0})
  unfolding with_instance kill_device_locked
  kill_device serial = with_instance (kill_device_locked serial)

  -- `KillHost`
  unfoldable pub kill_host : Exec Failure (Process W) (Unit {0})
  unfolding with_instance kill_host_locked
  kill_host = with_instance (lift kill_host_locked)

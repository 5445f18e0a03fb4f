-- ===== src/Forwarder/Samples.antt =====
-- The theorems about the Forwarder with a host_forwarder that names the same ports each time.
use udroid.Prelude.{true, false, none, some, Text, codes, ◌≡◌, refl, pos, int_of}
use udroid.Prelude.Effects.{ok}
use udroid.Forwarder.{
  exited, Tools, Forwarder, Held, new_forwarder, record_ports, unmap_device_port_locked,
  unmap_all_locked, unmap_all_device_ports, map_one, parse_ports,
}
use udroid.Forwarder.Inverse.{IsInverse, new_forwarder-IsInverse, record_ports-IsInverse}
use udroid.Forwarder.Methods.{is_key_error}
use udroid.Forwarder.Trace.{Step, Reach, Reach-IsInverse, forwarded, unmap_all_device_ports_exact}

abbrev tools : Tools (Unit {0})
tools = record {
  run = λ command w. (exited 0 (codes "5:80"), w);
  fetch_host_path = λ w. (ok tt, w);
  host_path_exists = λ w. true;
  is_our_host = λ w. (ok true, w);
  write_pid = λ w. (ok tt, w);
  device_forwarder_exists = λ serial w. (ok false, w);
  kill_device_forwarder = λ serial w. (ok tt, w);
  reboot = λ serial w. (ok tt, w);
  push_device_forwarder = λ serial w. (ok tt, w);
  start_device_forwarder = λ serial w. (ok tt, w);
  log_map_failure = λ serial w. (ok tt, w);
}

abbrev phone : Text
phone = codes "p"

abbrev idle : Held (Unit {0})
idle = record { forwarder = new_forwarder; world = tt }

abbrev mapped_once : Forwarder
mapped_once = record_ports phone (pos 5) (pos 80) new_forwarder

mapped_once-IsInverse : IsInverse mapped_once
mapped_once-IsInverse =
    record_ports-IsInverse phone (pos 5) (pos 80) new_forwarder new_forwarder-IsInverse refl refl

mapped_state : Reach tools idle (map_one tools phone (pos 0, pos 80) idle).1
unfolding parse_ports int_of
mapped_state = Reach.next Reach.here (Step.mapped phone (pos 0, pos 80) (refl, refl))

Reach-IsInverse_example :
    IsInverse (map_one tools phone (pos 0, pos 80) idle).1.forwarder
    × (is_key_error
          (unmap_device_port_locked tools
            (pos 5)
            phone
            (map_one tools phone (pos 0, pos 80) idle).1).0
        ≡ false)
    × (is_key_error (unmap_all_locked tools phone (map_one tools phone (pos 0, pos 80) idle).1).0
        ≡ false)
Reach-IsInverse_example =
    Reach-IsInverse tools tt (map_one tools phone (pos 0, pos 80) idle).1 (pos 5) phone mapped_state

unmap_all_device_ports_exact_example :
    forwarded tools
      (phone, pos 5)
      (unmap_all_device_ports tools phone (record { instance_ = some mapped_once; world = tt })).1
    ≡ none
unfolding unmap_all_device_ports record_ports
unmap_all_device_ports_exact_example =
    unmap_all_device_ports_exact tools phone mapped_once tt (phone, pos 5) mapped_once-IsInverse
      refl

-- ===== src/Lib.antt =====
-- Verification of the Python tools of udroid under armhf/udroid/wrapper/systrace-dir/catapult, which
-- is CATAPULT below. The tools drive Android devices and fetch the programs they need. Ten parts of
-- them are modelled. They share no state; Battery waits by WaitFor of Retry, and Threads is what a try of
-- Retry runs in.
--
-- FlagChanger (CATAPULT/devil/devil/android/flag_changer.py) rewrites the command line file of Chrome
-- on a device. Flags.antt models _SerializeFlags, _QuoteFlag and _ParseFlags on texts, which are
-- lists of character codes; the regular expressions are written out.
-- FlagChanger.antt has the object's stack of flag lists and the device's file as its state;
-- PushFlags, AddFlags, RemoveFlags, Restore and CustomCommandLineFlags are functions on it.
-- DeviceUtils.ReadFile is taken to return what was written, while it makes a newline of each carriage
-- return: a flag that has a carriage return is outside of the model.
--
-- Dependency (CATAPULT/dependency_manager/dependency_manager) finds the file of a dependency.
-- Dependency.antt has the exceptions and the calls that change a world and may raise. A call that
-- raises keeps what it changed before. Dependency/LocalPaths.antt is local_path_info.py,
-- Dependency/Remote.antt is cloud_storage_info.py and archive_info.py, Dependency/Info.antt is
-- dependency_info.py, Dependency/Manager.antt is manager.py, Dependency/Configs.antt with its
-- children Reading and Jobs is base_config.py, and Dependency/Uploads.antt is uploader.py. A config is
-- read into the infos that IterDependencyInfo yields (Configs.Reading.read_config), the manager merges
-- them by dependency and platform (Manager.add_info, which calls Info.update_info), and a lookup asks an
-- info for a local path and then for a download (Manager.fetch_path_with_version).
-- ExecuteUpdateJobs (Configs.Jobs) runs the uploads of Uploads and rolls them back.
--
-- Tracing (CATAPULT/systrace/systrace/tracing_controller.py) starts and stops the trace agents.
-- Tracing.antt has the TracingController as a record with a log of the calls of agents;
-- start_tracing is StartTracing, stop_tracing is StopTracing. What an agent answers to a call, also with an
-- exception, is a function of the call and the log before it (Agents).
--
-- Retry (CATAPULT/devil/devil/utils/timeout_retry.py and watchdog_timer.py): Retry.antt has WaitFor and
-- Run as loops on a world with a clock. WaitFor, which need not end, takes fuel; under a watchdog as
-- many checks as there are ticks left, and one more, are enough (Retry.Waiting). Retry/Trying.antt has the try of Run on a
-- thread of its own, with the groups of Threads; its inner loop takes fuel as JoinAll does.
--
-- Threads (CATAPULT/devil/devil/utils/reraiser_thread.py): Threads.antt has ReraiserThreadGroup, with
-- Add, StartAll, JoinAll and GetAllReturnValues, and RunAsync. A System says what a thread's start and
-- each wait for it do to the world, who is alive, and what is left when a thread has ended; so all
-- interleavings of the threads are covered. JoinAll takes fuel, one for each round of its loop; the waits up
-- to the time when no thread is alive, and the number of the threads, are enough (Threads.Ending).
--
-- Forwarder (CATAPULT/devil/devil/android/forwarder.py): Forwarder.antt has the two maps of ports of the
-- object, and each method, which holds the lock while it runs, as a function on them and on the world of
-- host_forwarder and device_forwarder (Tools). Forwarder.Trace has the calls as a step relation.
--
-- Battery (CATAPULT/devil/devil/android/battery_utils.py): Battery.antt has the cached profile, dumpsys
-- battery and the switch by hardware, Battery/Charging.antt the clearing of the statistics and the switch by
-- software, Battery/Levels.antt the waits for a level or a temperature, Battery/Power.antt the power and the network data.
-- A method is one try of it; its decorator runs it again as Retry.run does. The device and its clock are a
-- Device, csv.reader and float are functions. The waits take fuel; for ChargeDeviceToLevel more than 20
-- rounds for each level, and 20 more, are enough (Battery.Levels.Ending).
--
-- Usb (CATAPULT/devil/devil/utils/find_usb_devices.py and usb_hubs.py): Usb.antt has the tree of nodes,
-- Usb/Lines.antt the patterns of the lines of usb-devices and lsusb, written out as matches from the left,
-- Usb/Building.antt GetBusNumberToDeviceTreeMap, Usb/Hubs.antt the hub types and the maps from physical
-- ports, and Usb/Ttys.antt the serial ports of udevadm.
--
-- Blacklist (CATAPULT/devil/devil/android/device_blacklist.py): Blacklist.antt has the content of the file
-- as its state, and Read, Write, Extend and Reset as functions on it; json is the parameter Json.
--
-- Push (CATAPULT/devil/devil/android/device_utils.py): Push.antt has PushChangedFiles and what it calls,
-- with the cache of the device's checksums as its state; Push/Comparing.antt compares the checksums. Files,
-- checksums, adb push and the zip file are the parameter Files. The times of _ApproximateDuration are
-- counted in units of 1/40000000 second, where every constant of the source is a whole number.
--
-- What the sources call and this repository does not hold is a parameter: os, os.path, shutil, glob
-- and zip in the records Host and Paths; gsutil as a Cloud, a function from bucket and path to
-- contents, whose calls are numbered, and a function that says which of them raise; the JSON file
-- and the hash in the record Outside. The hypotheses on them are KeepsFiles (chmod keeps a file),
-- RoundTrips (what was dumped is loaded, of a config and of a blacklist), IsCalm (gsutil does not raise any more), that a thread that has
-- ended stays so, and that the threads end at some time.
--
-- Lists, dicts and the loops over them are structural recursion, so that no fuel is used but for
-- WaitFor and JoinAll; the tries of
-- PrefetchPaths are counted by a number, as in the source. A dict is the list of its items. Python's
-- dict has no order to rely on, and no theorem does beyond the list it is given.
--
-- Logging and messages of exceptions are not modelled. The remaining packages (the rest of device_utils,
-- the single trace agents, py_utils, and others) are not modelled; they mostly run external programs.
pub mod Prelude
pub mod Flags
pub mod FlagChanger
pub mod Battery
pub mod Blacklist
pub mod Dependency
pub mod Forwarder
pub mod Push
pub mod Retry
pub mod Threads
pub mod Tracing
pub mod Usb

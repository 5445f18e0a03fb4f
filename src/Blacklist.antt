-- ===== src/Blacklist.antt =====
-- devil/devil/android/device_blacklist.py: class Blacklist. The state is the content of its file, if
-- there is one. A method holds the lock while it runs, so that it is one step. The json module is a
-- parameter.
pub mod Extending
mod Samples
use udroid.Prelude.{ℕ, Option, none, some, List, [], ◌∷◌, Text, Dict, insert}

pub record Event : Type 0 where
  pub timestamp : ℕ
  pub reason : Text

-- What json.load makes of the file.
pub data Loaded : Type 0 where
  unreadable other_value : Loaded
  devices : Dict Event → Loaded

pub record Json (Content : Type 0) : Type 0 where
  pub load : Content → Loaded
  pub dump : Dict Event → Content

module _ {Content : Type 0} (json : Json Content) where
  abbrev pub File : Type 0
  File = Option Content

  abbrev pub read_loaded : Content → Loaded → Dict Event × File
  read_loaded content unreadable = ([], none)
  read_loaded content other_value = ([], some content)
  read_loaded content (devices blacklist) = (blacklist, some content)

  -- `Read`; a file that cannot be read is removed.
  unfoldable pub read : File → Dict Event × File
  read none = ([], none)
  read (some content) = read_loaded content (json.load content)

  -- `Write`
  unfoldable pub write : Dict Event → File → File
  write blacklist file = some (json.dump blacklist)

  -- `{device: event_info for device in devices}`, and `blacklist.update` with it.
  abbrev pub updated : Event → List Text → Dict Event → Dict Event
  updated event [] blacklist = blacklist
  updated event (device ∷ bad) blacklist = updated event bad (insert device event blacklist)

  -- `Extend`, at the time of the event.
  unfoldable pub extend : Event → List Text → File → File
  unfolding read write
  extend event bad file =
      let (blacklist, file') = read file in write (updated event bad blacklist) file'

  -- `Reset`
  unfoldable pub erase : File → File
  erase file = none

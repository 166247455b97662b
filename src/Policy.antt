-- ===== src/Policy.antt =====
-- archive_policy.py: the retained representations of a capture.
pub mod Wire
pub mod Events
pub mod Records
pub mod Units
pub mod Frames
use hndl_dev.Prelude.{ℕ, ◌+◌, Bool, true, false, List, [], ◌∷◌, ◌++◌, if◌then◌else◌, length}
use hndl_dev.Binary.{Bytes}

-- One payload, datagram or protocol unit, with its direction.
pub record WireEvent : Type 0 where
  pub to_server : Bool
  pub payload : Bytes

abbrev pub same_side : Bool → Bool → Bool
same_side true b = b
same_side false true = false
same_side false false = true

-- `b"".join(event.payload for event in events if event.to_server == side)`
unfoldable pub side_bytes : Bool → List WireEvent → Bytes
side_bytes side [] = []
side_bytes side (e ∷ events) =
    if same_side e.to_server side
    then e.payload ++ side_bytes side events
    else side_bytes side events

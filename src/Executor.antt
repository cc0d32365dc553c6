-- ===== src/Executor.antt =====
-- executor/executor.cpp: the prober, which looks for devices on its host. The host's files are a
-- parameter, and so are the random serial number and the encoding of the messages.
pub mod Detection
pub mod Mounts
use Prim.Native.Char.{code}
use Prim.Native.String.{◌++◌}
use mesos_framework.Base.{
  ℕ, String, Bool, true, false, not, ◌&&◌, ◌||◌, List, [], ◌∷◌, Option, none, some, ◌==◌,
  if◌then◌else◌,
}
use mesos_framework.Base.Text.{is_empty, concat}
use mesos_framework.Base.Int.{show, is_space}
use mesos_framework.Proto.{DeviceType, ProbeRequest, ProbeResponse}
use mesos_framework.Mesos.{TaskStatus, task_finished}

-- `stat` succeeds on what exists; `lines` is what `std::getline` reads until it fails.
pub record FileOps {ℓ} (F : Type ℓ) : Type ℓ where
  pub exists : String → F → Bool
  pub is_directory : String → F → Bool
  pub lines : String → F → List String
  pub write : String → String → F → F

-- `std::set<quobyte::DeviceType> found_types`, of which the program inserts these three.
pub record FoundTypes : Type 0 where
  pub registry : Bool
  pub metadata : Bool
  pub data_device : Bool

abbrev pub nothing_found : FoundTypes
nothing_found = record { registry = false; metadata = false; data_device = false }

abbrev pub when : Bool → DeviceType → List DeviceType → List DeviceType
when b t ts = if b then t ∷ ts else ts

-- The set is iterated in the order of the enum.
abbrev pub types_list : FoundTypes → List DeviceType
types_list f =
    when f.registry DeviceType.registry
      (when f.metadata DeviceType.metadata (when f.data_device DeviceType.data_device []))

-- The words of a line, as `>>` reads them.
pub words_from : String → String → List String
words_from cur String.[] = if is_empty cur then [] else cur ∷ []
words_from cur (String.◌∷◌ c s) =
    let closed = words_from "" s in
    let longer = words_from (cur ++ String.◌∷◌ c String.[]) s in
    if is_space (code c) then (if is_empty cur then closed else cur ∷ closed) else longer

-- The mount point of a line of /proc/mounts with three words or more, where the file system is one
-- that may hold a device.
abbrev pub mount_of : List String → Option String
mount_of (what ∷ mount ∷ type ∷ _) = if type == "ext4" || type == "xfs" then some mount else none
mount_of _ = none

unfoldable pub mount_point : String → Option String
unfolding words_from
mount_point line = mount_of (words_from "" line)

abbrev pub setup_file_in : String → String
setup_file_in path = path ++ "/QUOBYTE_DEV_SETUP"

abbrev pub not_empty : String → Bool
not_empty s = not (is_empty s)

-- One line of a setup file.
unfoldable pub setup_line : String → FoundTypes → FoundTypes
setup_line line f =
    if line == "device.type=DIR_DEVICE"
    then record f { registry = true }
    else (if line == "device.type=METADATA_DEVICE"
        then record f { metadata = true }
        else (if line == "device.type=DATA_DEVICE" then record f { data_device = true } else f))

unfoldable pub setup_lines : List String → FoundTypes → FoundTypes
setup_lines [] f = f
setup_lines (line ∷ lines) f = setup_lines lines (setup_line line f)

-- A marker `quobyte-<name>` at the root of a device.
unfoldable pub add_marker : String → FoundTypes → FoundTypes
add_marker name f =
    if name == "dir"
    then record f { registry = true }
    else (if name == "metadata"
        then record f { metadata = true }
        else (if name == "data" then record f { data_device = true } else f))

module _ {ℓ} {F : Type ℓ} (ops : FileOps F) where
  -- The loop's body for one name.
  unfoldable pub look_for : F → String → String → FoundTypes → FoundTypes
  unfolding add_marker
  look_for files mount name f =
      let marked =
        if ops.exists (mount ++ ("/quobyte-" ++ name)) files then add_marker name f else f in
      if ops.exists (setup_file_in mount) files
      then setup_lines (ops.lines (setup_file_in mount) files) marked
      else marked

  unfoldable pub look_at_mount : F → String → FoundTypes → FoundTypes
  unfolding look_for
  look_at_mount files mount f =
      look_for files mount "data" (look_for files mount "metadata" (look_for files mount "dir" f))

  unfoldable pub look_at_line : F → Option String → FoundTypes → FoundTypes
  look_at_line files none f = f
  look_at_line files (some mount) f = look_at_mount files mount f

  unfoldable pub look_at_mounts : F → List String → FoundTypes → FoundTypes
  unfolding look_at_line
  look_at_mounts files [] f = f
  look_at_mounts files (line ∷ lines) f =
      look_at_mounts files lines (look_at_line files (mount_point line) f)

  unfoldable pub probe_response : ProbeRequest → F → ProbeResponse
  unfolding look_at_mounts
  probe_response request files = record {
    device_type =
        when (not_empty request.client_directory && ops.exists request.client_directory files)
          DeviceType.client
          (types_list (look_at_mounts files (ops.lines "/proc/mounts" files) nothing_found));
    client_mount_point = ops.exists "/quobyte" files && ops.is_directory "/quobyte" files;
  }

-- The text of a new setup file.
unfoldable pub setup_text : ℕ → String
unfolding show
setup_text random = concat (
    "# Quobyte device identifier file (written by Mesos framework)\n"
    ∷ "device.serial="
    ∷ show random
    ∷ "device.model=Unknown"
    ∷ "device.type=DATA_DEVICE"
    ∷ [])

module _ {ℓ} {F : Type ℓ} (ops : FileOps F) (decode : String → ProbeRequest)
    (encode : ProbeResponse → String) where
  -- The files afterwards, and the message that is sent. A device that is set up is left alone, and
  -- then nothing is sent.
  unfoldable pub framework_message : ℕ → String → F → F × Option String
  unfolding probe_response setup_text
  framework_message random payload files =
      let request = decode payload in
      let setup_file = setup_file_in request.initialize_path in
      if is_empty request.initialize_path
      then (files, some (encode (probe_response ops request files)))
      else (if ops.exists setup_file files
          then (files, none)
          else let written = ops.write setup_file (setup_text random) files in
            (written, some (encode (probe_response ops request written))))

-- A task is reported as finished at once; none is started.
unfoldable pub launch_task : String → TaskStatus
launch_task task_id = record {
  task_id = task_id;
  slave_id = "";
  state = task_finished;
  message = "";
  labels = [];
}

-- ===== src/Executor/Detection.antt =====
-- executor/executor.cpp: which kinds of device the prober reports.
use Prim.Native.String.{◌++◌}
use mesos_framework.Base.{
  String, ◌≡◌, refl, ◌∙◌, Bool, true, false, ◌&&◌, ◌||◌, List, [], ◌∷◌, Option, none, some, ◌==◌,
  arith, any, Bool-cases, eq_iff, inl, inr,
}
use mesos_framework.Proto.{DeviceType, same_type, ProbeRequest}
use mesos_framework.Executor.{
  FileOps, FoundTypes, nothing_found, types_list, mount_point, when, not_empty, setup_file_in,
  setup_line, setup_lines, add_marker, look_for, look_at_mount, look_at_line, look_at_mounts,
  probe_response,
}

-- The kinds of device that the prober looks for, each with the name of its marker and with its line
-- in a setup file.
pub data Sought : Type 0 where
  dir metadata data_kind : Sought

abbrev pub type_of : Sought → DeviceType
type_of dir = DeviceType.registry
type_of metadata = DeviceType.metadata
type_of data_kind = DeviceType.data_device

abbrev pub marker_of : Sought → String
marker_of dir = "dir"
marker_of metadata = "metadata"
marker_of data_kind = "data"

abbrev pub line_of : Sought → String
line_of dir = "device.type=DIR_DEVICE"
line_of metadata = "device.type=METADATA_DEVICE"
line_of data_kind = "device.type=DATA_DEVICE"

abbrev found : Sought → FoundTypes → Bool
found dir f = f.registry
found metadata f = f.metadata
found data_kind f = f.data_device

or_assoc : (a b c : Bool) → ((a || b) || c) ≡ (a || (b || c))
or_assoc a b c = ground arith

-- A text is not equal to both of two texts that differ.
not_both : (line a b : String) → (a == b) ≡ false → (line == a) ≡ true → (line == b) ≡ false
not_both line a b h e = let same : line ≡ a = (eq_iff line a).0 e in rw same h

found-setup_line :
    (t : Sought) (line : String) (f : FoundTypes)
    → found t (setup_line line f) ≡ (found t f || line == line_of t)
unfolding setup_line
found-setup_line t line f =
    go (not_both line (line_of dir) (line_of metadata) refl)
      (not_both line (line_of dir) (line_of data_kind) refl)
      (not_both line (line_of metadata) (line_of data_kind) refl) t
  where
    go :
        ((line == line_of dir) ≡ true → (line == line_of metadata) ≡ false)
        → ((line == line_of dir) ≡ true → (line == line_of data_kind) ≡ false)
        → ((line == line_of metadata) ≡ true → (line == line_of data_kind) ≡ false)
        → (t : Sought) → found t (setup_line line f) ≡ (found t f || line == line_of t)
    go h k l dir = ground arith
    go h k l metadata = ground arith
    go h k l data_kind = ground arith

found-add_marker :
    (t u : Sought) (f : FoundTypes)
    → found t (add_marker (marker_of u) f) ≡ (found t f || same_type (type_of u) (type_of t))
unfolding add_marker
found-add_marker dir dir f = ground arith
found-add_marker dir metadata f = ground arith
found-add_marker dir data_kind f = ground arith
found-add_marker metadata dir f = ground arith
found-add_marker metadata metadata f = ground arith
found-add_marker metadata data_kind f = ground arith
found-add_marker data_kind dir f = ground arith
found-add_marker data_kind metadata f = ground arith
found-add_marker data_kind data_kind f = ground arith

found-setup_lines :
    (t : Sought) (lines : List String) (f : FoundTypes)
    → found t (setup_lines lines f) ≡ (found t f || any (λ line. line == line_of t) lines)
unfolding setup_lines
found-setup_lines t [] f = ground arith
found-setup_lines t (line ∷ lines) f =
    found-setup_lines t lines (setup_line line f)
    ∙ rw (found-setup_line t line f) (or_assoc (found t f) _ _)

listed :
    (t : Sought) (client : Bool) (f : FoundTypes)
    → any (same_type (type_of t)) (when client DeviceType.client (types_list f)) ≡ found t f
listed dir client f = ground arith
listed metadata client f = ground arith
listed data_kind client f = ground arith

module _ {ℓ} {F : Type ℓ} (ops : FileOps F) (files : F) where
  -- What makes a mount point a device of a kind: its marker, or a line in its setup file.
  abbrev pub has_marker : Sought → String → Bool
  has_marker t mount = ops.exists (mount ++ ("/quobyte-" ++ marker_of t)) files

  abbrev pub is_set_up : Sought → String → Bool
  is_set_up t mount =
      ops.exists (setup_file_in mount) files
      && any (λ line. line == line_of t) (ops.lines (setup_file_in mount) files)

  abbrev pub is_device : Sought → String → Bool
  is_device t mount = has_marker t mount || is_set_up t mount

  found-look_for :
      (t u : Sought) (mount : String) (f : FoundTypes)
      → found t (look_for ops files mount (marker_of u) f) ≡ (
          (found t f || (same_type (type_of u) (type_of t) && has_marker u mount))
          || is_set_up t mount)
  unfolding look_for
  found-look_for t u mount f =
      let marked = found-add_marker t u f in
      let name = mount ++ ("/quobyte-" ++ marker_of u) in
      let lines = ops.lines (setup_file_in mount) files in
      elim (Bool-cases (ops.exists name files)) [
        | inl shown ↦ elim (Bool-cases (ops.exists (setup_file_in mount) files)) [
          | inl set ↦
              rw (shown, set, found-setup_lines t lines (add_marker (marker_of u) f), marked)
                (ground arith)
          | inr unset ↦ rw (shown, unset, marked) (ground arith)
        ]
        | inr hidden ↦ elim (Bool-cases (ops.exists (setup_file_in mount) files)) [
          | inl set ↦ rw (hidden, set, found-setup_lines t lines f) (ground arith)
          | inr unset ↦ rw (hidden, unset) (ground arith)
        ]
      ]

  found-look_at_mount :
      (t : Sought) (mount : String) (f : FoundTypes)
      → found t (look_at_mount ops files mount f) ≡ (found t f || is_device t mount)
  unfolding look_at_mount
  found-look_at_mount t mount f =
      let once = look_for ops files mount "dir" f in
      let twice = look_for ops files mount "metadata" once in
      found-look_for t data_kind mount twice
      ∙ rw (found-look_for t metadata mount once, found-look_for t dir mount f) (go t (found t f))
    where
      go :
          (t : Sought) (b : Bool)
          → ((((b || (same_type (type_of dir) (type_of t) && has_marker dir mount))
                  || is_set_up t mount
                  || (same_type (type_of metadata) (type_of t) && has_marker metadata mount))
                || is_set_up t mount
                || (same_type (type_of data_kind) (type_of t) && has_marker data_kind mount))
              || is_set_up t mount)
            ≡ (b || is_device t mount)
      go dir b = ground arith
      go metadata b = ground arith
      go data_kind b = ground arith

  abbrev is_device_at : Sought → Option String → Bool
  is_device_at t none = false
  is_device_at t (some mount) = is_device t mount

  -- A line of /proc/mounts that names a device of a kind.
  abbrev pub names_device : Sought → String → Bool
  names_device t line = is_device_at t (mount_point line)

  found-look_at_line :
      (t : Sought) (mount : Option String) (f : FoundTypes)
      → found t (look_at_line ops files mount f) ≡ (found t f || is_device_at t mount)
  unfolding look_at_line
  found-look_at_line t none f = ground arith
  found-look_at_line t (some mount) f = found-look_at_mount t mount f

  found-look_at_mounts :
      (t : Sought) (lines : List String) (f : FoundTypes)
      → found t (look_at_mounts ops files lines f) ≡ (found t f || any (names_device t) lines)
  unfolding look_at_mounts
  found-look_at_mounts t [] f = ground arith
  found-look_at_mounts t (line ∷ lines) f =
      found-look_at_mounts t lines (look_at_line ops files (mount_point line) f)
      ∙ rw (found-look_at_line t (mount_point line) f) (or_assoc (found t f) _ _)

  -- The prober reports a kind of device exactly where some mount point of /proc/mounts, of a file
  -- system that may hold a device, carries the marker of that kind or has a setup file with its line.
  pub probe_response-device_type :
      (t : Sought) (request : ProbeRequest)
      → any (same_type (type_of t)) (probe_response ops request files).device_type
        ≡ any (names_device t) (ops.lines "/proc/mounts" files)
  unfolding probe_response
  probe_response-device_type t request =
      let types = look_at_mounts ops files (ops.lines "/proc/mounts" files) nothing_found in
      let client =
        not_empty request.client_directory && ops.exists request.client_directory files in
      listed t client types
      ∙ found-look_at_mounts t (ops.lines "/proc/mounts" files) nothing_found
      ∙ nothing t
    where
      nothing :
          (t : Sought)
          → (found t nothing_found || any (names_device t) (ops.lines "/proc/mounts" files))
            ≡ any (names_device t) (ops.lines "/proc/mounts" files)
      nothing dir = refl
      nothing metadata = refl
      nothing data_kind = refl

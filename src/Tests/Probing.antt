-- ===== src/Tests/Probing.antt =====
-- Tests of the prober.
use Prim.Native.String.{◌++◌}
use mesos_framework.Executor.Mounts.{mount_point-append}
use mesos_framework.Base.{
  some, inr, String, ◌≡◌, refl, true, false, List, [], ◌∷◌, ◌==◌, any, if◌then◌else◌,
}
use mesos_framework.Proto.{running, DeviceType, same_type, ProbeRequest}
use mesos_framework.Executor.{FileOps, probe_response, mount_point}
use mesos_framework.Executor.Detection.{dir, names_device, probe_response-device_type}
use mesos_framework.Base.Dict
use mesos_framework.Scheduler.State.{prober}
use mesos_framework.Scheduler.State.Fields.{state_of}
use mesos_framework.Scheduler.Status.{status_update}
use mesos_framework.Probing.{prober_report, prober_report-seen_running}
use mesos_framework.Tests.{shut_down, up, down, scheduler}

-- The files are the lines of /proc/mounts; only /m is a device, for a registry.
abbrev one_device : FileOps (List String)
one_device = record {
  exists = λ path files. path == "/m/quobyte-dir";
  is_directory = λ path files. false;
  lines = λ path files. if path == "/proc/mounts" then files else [];
  write = λ path text files. files;
}

abbrev no_directory : ProbeRequest
no_directory = record { client_directory = ""; initialize_path = "" }

probe_response-device_type_example :
    any
      (same_type DeviceType.registry)
      (probe_response one_device no_directory ("/dev/sda /m ext4 rw" ∷ [])).device_type
    ≡ any (names_device one_device ("/dev/sda /m ext4 rw" ∷ []) dir) ("/dev/sda /m ext4 rw" ∷ [])
probe_response-device_type_example =
    probe_response-device_type one_device ("/dev/sda /m ext4 rw" ∷ []) dir no_directory

mount_is_device :
    any (names_device one_device ("/dev/sda /m ext4 rw" ∷ []) dir) ("/dev/sda /m ext4 rw" ∷ [])
    ≡ true
unfolding mount_point
mount_is_device = refl

mount_point-append_example :
    mount_point ("/dev/sda" ++ (" " ++ ("/m" ++ (" " ++ ("ext4" ++ (" " ++ "rw 0 0"))))))
    ≡ some "/m"
mount_point-append_example =
    mount_point-append "/dev/sda" "/m" "ext4" "rw 0 0"
      ((λ e. cc), (refl, (refl, (refl, (refl, (refl, (refl, (refl, (refl, tt)))))))))
      ((λ e. cc), (refl, (refl, tt))) ((λ e. cc), (refl, (refl, (refl, (refl, tt)))))

-- Nothing is to be deployed, and the prober of the host is on record.
prober_report-seen_running_example :
    (state_of prober "a"
        (status_update shut_down 1020 (prober_report "a" "slave1") (scheduler down)).0
      ≡ record (up "quobyte-device-prober-a") {
        state = running;
        last_update_s = 1020;
        last_seen_s = 1020;
        last_message = "";
        task_id = "quobyte-device-prober-a";
      })
    × ((status_update shut_down 1020 (prober_report "a" "slave1") (scheduler down)).1 ≡ [])
unfolding Dict.find
prober_report-seen_running_example =
    prober_report-seen_running shut_down 1020 "a" "slave1" (scheduler down) ((λ e. cc), tt)
      (inr refl)

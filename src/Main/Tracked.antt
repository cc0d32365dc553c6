-- ===== src/Main/Tracked.antt =====
-- scheduler/quobyte-mesos.cpp: what a process that `main` has started has on record of its tasks.
use mesos_framework.Flags.{Flags}
use mesos_framework.Proto
use mesos_framework.Scheduler.Runs
use mesos_framework.System.{System}

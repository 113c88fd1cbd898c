-- ===== src/Machine/Stats.antt =====
-- lib/libkvm/machine_stats.hpp: the counters of a machine, but for the CPU times.
use libvmod_tinykvm.Common.{ℕ}

pub record MachineStats : Type 0 where
  pub invocations : ℕ
  pub resets : ℕ
  pub full_resets : ℕ
  pub timeouts : ℕ
  pub exceptions : ℕ
  pub exception_oom : ℕ
  pub exception_mem : ℕ
  pub status_2xx : ℕ
  pub status_3xx : ℕ
  pub status_4xx : ℕ
  pub status_5xx : ℕ
  pub status_unknown : ℕ
  pub input_bytes : ℕ
  pub output_bytes : ℕ

abbrev pub zeroed : MachineStats
zeroed = record {
  invocations = 0;
  resets = 0;
  full_resets = 0;
  timeouts = 0;
  exceptions = 0;
  exception_oom = 0;
  exception_mem = 0;
  status_2xx = 0;
  status_3xx = 0;
  status_4xx = 0;
  status_5xx = 0;
  status_unknown = 0;
  input_bytes = 0;
  output_bytes = 0;
}

-- ===== src/Gpu/Tests.antt =====
-- The allocation of GPUs for concrete probes.
use notebook_launcher.Prelude.{◌≡◌, not, ◌&&◌, some, none, [], ◌∷◌, true}
use notebook_launcher.Action.{is_ok}
use notebook_launcher.State.Rows.{Gpu}
use notebook_launcher.Gpu.{GpuProbeResult, is_on, is_off, resolve_gpu_allocation}
use notebook_launcher.Gpu.Granted.{agree, is_enabled, resolve_gpu_allocation_exact}

abbrev one : GpuProbeResult
one = record {
  available = true;
  devices = record { uuid = "GPU-1"; name = "a" } ∷ [];
  error = none;
}

resolve_gpu_allocation_exact_example :
    (is_enabled (resolve_gpu_allocation Gpu.on one (some one))
      ≡ (not (is_off Gpu.on) && agree one (some one)))
    × (is_ok (resolve_gpu_allocation Gpu.on one (some one))
        ≡ not (is_on Gpu.on && not (agree one (some one))))
resolve_gpu_allocation_exact_example = resolve_gpu_allocation_exact Gpu.on one (some one)

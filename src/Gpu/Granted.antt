-- ===== src/Gpu/Granted.antt =====
-- When a runtime gets the GPUs.
use notebook_launcher.Prelude.{◌≡◌, Bool, false, not, ◌&&◌, Option, arith}
use notebook_launcher.Action.{Result, ok, err, is_ok}
use notebook_launcher.State.Rows.{Gpu, auto, on, off}
use notebook_launcher.Gpu.{
  GpuProbeResult, GpuAllocation, is_available, devices_of, same_uuids, is_on, is_off,
  resolve_gpu_allocation,
}

-- Host and container both see the GPUs, and see the same ones.
abbrev pub agree : GpuProbeResult → Option GpuProbeResult → Bool
agree host container =
    host.available && is_available container && same_uuids host.devices (devices_of container)

abbrev pub is_enabled : Result GpuAllocation → Bool
is_enabled (ok a) = a.enabled
is_enabled (err _) = false

-- A runtime gets GPUs exactly if they are not switched off and host and container see the same ones;
-- only where the launch asks for them as required is it an error that they do not.
pub resolve_gpu_allocation_exact :
    (mode : Gpu) (host : GpuProbeResult) (container : Option GpuProbeResult)
    → (is_enabled (resolve_gpu_allocation mode host container)
        ≡ (not (is_off mode) && agree host container))
      × (is_ok (resolve_gpu_allocation mode host container)
          ≡ not (is_on mode && not (agree host container)))
unfolding resolve_gpu_allocation
resolve_gpu_allocation_exact auto host container = ground arith
resolve_gpu_allocation_exact on host container = ground arith
resolve_gpu_allocation_exact off host container = ground arith

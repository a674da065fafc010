-- ===== src/Gpu.antt =====
-- runtime.py: whether a runtime gets the host's GPUs.
pub mod Granted
mod Tests
use notebook_launcher.Prelude.{
  String, Bool, true, false, not, ◌&&◌, Option, none, some, List, [], ◌∷◌, any, all, is_none,
  coalesce, str_eq, if◌then◌else◌,
}
use Prim.Native.String.{◌++◌ as join_text}
use notebook_launcher.Action.{Result, ok, err, runtime_error}
use notebook_launcher.State.Rows.{Gpu, auto, on, off}

pub record GpuDevice : Type 0 where
  pub uuid : String
  pub name : String

pub record GpuProbeResult : Type 0 where
  pub available : Bool
  pub devices : List GpuDevice
  pub error : Option String

pub record GpuAllocation : Type 0 where
  pub requested_mode : Gpu
  pub enabled : Bool
  pub devices : List GpuDevice
  pub host_available : Bool
  pub container_available : Bool
  pub reason : Option String

-- `GPUProbeResult(False, error=…)`
abbrev pub unavailable : Option String → GpuProbeResult
unavailable error = record { available = false; devices = []; error = error }

abbrev pub is_available : Option GpuProbeResult → Bool
is_available none = false
is_available (some p) = p.available

abbrev pub devices_of : Option GpuProbeResult → List GpuDevice
devices_of none = []
devices_of (some p) = p.devices

-- `{device.uuid for device in …}`, and equality of two such sets
abbrev pub has_uuid : List GpuDevice → GpuDevice → Bool
has_uuid l d = any (λ e. str_eq e.uuid d.uuid) l

abbrev pub same_uuids : List GpuDevice → List GpuDevice → Bool
same_uuids a b = all (has_uuid b) a && all (has_uuid a) b

abbrev pub is_on : Gpu → Bool
is_on on = true
is_on _ = false

abbrev pub is_off : Gpu → Bool
is_off off = true
is_off _ = false

-- `detail or 'unavailable'`
abbrev pub detail_of : GpuProbeResult → Option GpuProbeResult → Option String
detail_of host none = host.error
detail_of host (some c) = if host.available then c.error else host.error

abbrev pub unusable : Option String → String
unusable none =
    "GPU-required mode requested but the NVIDIA device is not usable inside the runtime (unavailable)"
unusable (some detail) =
    join_text "GPU-required mode requested but the NVIDIA device is not usable inside the runtime ("
      (join_text (if str_eq detail "" then "unavailable" else detail) ")")

-- The probe of both sides, for a mode that is not `off`.
unfoldable pub usable_gpu_probe :
    Gpu → GpuProbeResult → Option GpuProbeResult → Result GpuProbeResult
usable_gpu_probe mode host container =
    if host.available && is_available container
    then (if same_uuids host.devices (devices_of container)
        then ok (record { available = true; devices = devices_of container; error = none })
        else if is_on mode
        then err (
            runtime_error "GPU-required mode requested but host/container device identities differ")
        else ok (unavailable (some "device_identity_mismatch")))
    else if is_on mode
    then err (runtime_error (unusable (detail_of host container)))
    else ok (unavailable none)

unfoldable pub effective_gpu_probe :
    Gpu → GpuProbeResult → Option GpuProbeResult → Result GpuProbeResult
unfolding usable_gpu_probe
effective_gpu_probe mode host container =
    if is_off mode then ok (unavailable none) else usable_gpu_probe mode host container

abbrev pub reason_of : Gpu → GpuProbeResult → Option String
reason_of mode effective =
    if is_off mode
    then some "disabled_by_policy"
    else if not effective.available && is_none effective.error
    then some "usable_gpu_unavailable"
    else effective.error

unfoldable pub resolve_gpu_allocation :
    Gpu → GpuProbeResult → Option GpuProbeResult → Result GpuAllocation
unfolding effective_gpu_probe
resolve_gpu_allocation mode host container = elim (effective_gpu_probe mode host container) [
  | err e ↦ err e
  | ok effective ↦ ok (record {
    requested_mode = mode;
    enabled = effective.available;
    devices = effective.devices;
    host_available = host.available;
    container_available = is_available container;
    reason = reason_of mode effective;
  })
]

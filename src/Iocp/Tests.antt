-- ===== src/Iocp/Tests.antt =====
-- A receive that completes before the call that starts it has returned.
use jnet_lib.Base.{◌≡◌, refl, true, false, none, [], ◌∷◌}
use jnet_lib.Errors.{no_error}
use jnet_lib.Iocp.{
  Service, new_service, begin_overlapped, end_overlapped, on_pending, work_started, take_packet,
  claim, Steps, here, next, begins, kernel, returns, takes, claims, from_kernel, contains_result,
  kernel_completes,
}
use jnet_lib.Iocp.Delivery.Begin.{AllSound}
use jnet_lib.Iocp.Delivery.Keeps.{Steps-AllSound}
use jnet_lib.Iocp.Delivery.Completes.{CanComplete, Steps-CanComplete}

abbrev early : Service
early = kernel_completes 1 (begin_overlapped 1 (no_error, 5) (new_service false))

abbrev caught : Service
caught = claim 1 (no_error, 5) [] (take_packet none (from_kernel 1) [] early).0

abbrev received : Service
received =
    claim 1 (no_error, 5) []
      (take_packet none (contains_result 1) [] (end_overlapped true 1 caught)).0

received-Steps : Steps (new_service false) received
unfolding new_service begin_overlapped end_overlapped on_pending work_started take_packet claim
received-Steps =
    next
      (next
        (next
          (next
            (next (next (next here (begins 1 (no_error, 5) refl)) (kernel 1 refl))
              (takes none (from_kernel 1) [] refl))
            (claims 1 (no_error, 5) [] refl))
          (returns true 1 refl))
        (takes none (contains_result 1) [] refl))
      (claims 1 (no_error, 5) [] refl)

received_once : received.completed 1 ≡ (no_error, 5) ∷ []
unfolding new_service begin_overlapped end_overlapped on_pending work_started take_packet claim
received_once = refl

Steps-AllSound_example : AllSound received
Steps-AllSound_example = Steps-AllSound false received-Steps

early-Steps : Steps (new_service false) early
unfolding new_service begin_overlapped work_started
early-Steps = next (next here (begins 1 (no_error, 5) refl)) (kernel 1 refl)

Steps-CanComplete_example : CanComplete 1 early
Steps-CanComplete_example = Steps-CanComplete false 1 early-Steps

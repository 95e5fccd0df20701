-- ===== src/Runtime/Reservation.antt =====
-- crates/och-runtime/src/ingress.rs: the byte reservation law of the three admission classes.
use open_control_historian.Base.{Result, err, if◌then◌else◌, ltb, ok, ℕ, ◌-◌, ◌==◌, ◌||◌}

pub data AdmissionPriority : Type 0 where
  protected normal bulk : AdmissionPriority

pub data BarrierDemand : Type 0 where
  group immediate : BarrierDemand

pub record ByteReservationLimits : Type 0 where
  pub total : ℕ
  pub protected_reserve : ℕ
  pub normal_reserve : ℕ

pub data ReservationOptionsError : Type 0 where
  reservation_options_error : ReservationOptionsError

unfoldable pub new : ℕ → ℕ → ℕ → Result ReservationOptionsError ByteReservationLimits
new max_outstanding_bytes protected_reserved_bytes normal_reserved_bytes =
    if (max_outstanding_bytes == 0)
      || (ltb max_outstanding_bytes protected_reserved_bytes
          || ltb (max_outstanding_bytes - protected_reserved_bytes) normal_reserved_bytes)
    then err reservation_options_error
    else ok (record {
      total = max_outstanding_bytes;
      protected_reserve = protected_reserved_bytes;
      normal_reserve = normal_reserved_bytes;
    })

unfoldable pub class_ceiling : ByteReservationLimits → AdmissionPriority → ℕ
class_ceiling l protected = l.total
class_ceiling l normal = l.total - l.protected_reserve
class_ceiling l bulk = l.total - l.protected_reserve - l.normal_reserve

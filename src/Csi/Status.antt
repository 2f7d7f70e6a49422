-- ===== src/Csi/Status.antt =====
-- What a remote procedure call of the driver answers: a response, an error with a code, or nothing
-- because the server panicked. The texts of errors are not modelled.

-- The codes of google.golang.org/grpc/codes that the driver uses.
pub data Code : Type 0 where
  invalid_argument not_found already_exists failed_precondition internal unimplemented : Code

pub data Reply (A : Type 0) : Type 0 where
  replied : A → Reply A
  status : Code → Reply A
  crash : Reply A

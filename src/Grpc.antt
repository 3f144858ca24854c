-- ===== src/Grpc.antt =====
-- What a gRPC method answers, and what the services send out besides: writes to Postgres whose
-- outcome is dropped, and events for Kafka. The model keeps them in the order in which they are sent.

pub data Code : Type 0 where
  invalid_argument not_found failed_precondition internal : Code

-- A method returns a reply, or a status, or panics.
pub data Reply {ℓ} (A : Type ℓ) : Type ℓ where
  reply : A → Reply A
  status : Code → Reply A
  crash : Reply A

-- ===== src/Bridge/Journal.antt =====
-- `ExecutionStore` of bridge/runtime.go: the contract between the runtime and its journal. A
-- fault says what goes wrong below the journal during a call.
use lotor_go.Common.{◌≡◌, Option}
use lotor_go.Common.Bytes.{Bytes}
use lotor_go.Bridge.Platform.{Result}
use lotor_go.Bridge.Protocol.{Error}

-- A nil result and nil error is `fresh`: the caller owns a new reservation.
pub data Reserved : Type 0 where
  fresh : Reserved
  stored : Result → Reserved
  refused : Error → Reserved

pub record Journal (S F : Type 0) : Type 1 where
  pub reserve : F → Bytes → Bytes → S → Reserved × S
  pub complete : F → Bytes → Bytes → Result → S → Option Error × S
  -- an operation that has been reserved, by whoever
  pub Taken : Bytes → S → Type 0
  pub fresh_untaken :
      (f : F) (id digest : Bytes) (s : S) → (reserve f id digest s).0 ≡ fresh → ¬ (Taken id s)
  pub fresh_taken :
      (f : F) (id digest : Bytes) (s : S)
      → (reserve f id digest s).0 ≡ fresh
      → Taken id (reserve f id digest s).1
  pub reserve_keeps :
      (f : F) (id digest other : Bytes) (s : S)
      → Taken other s
      → Taken other (reserve f id digest s).1
  pub complete_keeps :
      (f : F) (id digest other : Bytes) (r : Result) (s : S)
      → Taken other s
      → Taken other (complete f id digest r s).1

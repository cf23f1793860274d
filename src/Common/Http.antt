-- ===== src/Common/Http.antt =====
-- HTTP exchanges, as far as the program sees them.
use Prim.Native.Nat.{ℕ}
use mathlib.Core.Option.{Option}
use lotor_go.Common.Bytes.{Bytes}

-- The reply to a request: its status and its body up to one byte past the limit of the caller, or
-- `none` where reading it fails.
pub data Reply : Type 0 where
  unreachable : Reply
  answered : ℕ → Option Bytes → Reply

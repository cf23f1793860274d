-- ===== src/Client/Results/Total.antt =====
-- The readers of replies of lotor/client.go stay inside every reply.
use lotor_go.Wire.Values.{Values}

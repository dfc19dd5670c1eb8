-- ===== src/Routes/Hop.antt =====
-- What becomes of a call from one object to another, as src/routes/bead-create-orchestrator.ts and
-- src/routes/lease-middleware.ts make them.
use cloister.Prelude.{String}

-- A call to another object: it is answered, or it throws with a message, either before it has any
-- effect or after it had its effect.
pub data Hop : Type 0 where
  reached : Hop
  lost : (message : String) → Hop
  reply_lost : (message : String) → Hop

-- ===== src/Releases/Terms.antt =====
-- The acceptance contracts that are accepted.
use sprintctl.Prelude.{string_eq}
use sprintctl.Domain.Json.{Json}

-- ===== src/Config/Entrypoints.antt =====
-- internal/config/config.go: the entrypoints, and which of them is the doorbell.
use bticino_go_companion.Common.{
  ℕ, suc, Text, Bool, Option, none, some, List, [], ◌∷◌, if◌then◌else◌, ◌==◌, ltb,
}

-- An int of Go.
pub data ℤ : Type 0 where
  pos negsuc : ℕ → ℤ

pub record Capabilities : Type 0 where
  pub stream : Bool
  pub unlock : Bool
  pub ring : Bool

pub record Entrypoint : Type 0 where
  pub id : Text
  pub label : Text
  pub dev_addr : Text
  pub capabilities : Capabilities
  pub unlock_mode : Text
  pub unlock_duration_ms : ℤ

-- The loop over the entrypoints for one capability, with its variables `found` and `count`.
unfoldable pub capable :
    (Capabilities → Bool) → List Entrypoint → Option Entrypoint → ℕ → Option Entrypoint × ℕ
capable test [] found count = (found, count)
capable test (e ∷ es) found count =
    let hit = test e.capabilities in
    capable test es (if hit then some e else found) (if hit then suc count else count)

-- DoorbellEntrypoint
unfoldable pub doorbell_entrypoint : List Entrypoint → Option Entrypoint
unfolding capable
doorbell_entrypoint es =
    let (streaming, streams) = capable (λ c. c.stream) es none 0 in
    let (ringing, rings) = capable (λ c. c.ring) es none 0 in
    if streams == 1
    then streaming
    else if ltb 1 streams
    then none
    else if rings == 1
    then ringing
    else none

-- ===== src/Domain/Routing.antt =====
-- packages/domain/src/router/routing_rules.ts
pub mod Laws
use emergent_inc.Common.{
  ℕ, Bool, not, ◌||◌, List, Text, codes, text_eq, includes, leb, Result, ok, ◌>>=◌, if◌then◌else◌,
}
use emergent_inc.Grid.Number.{trim, to_upper}
use emergent_inc.Grid.{GridError, is_direct_neighbor}
use emergent_inc.Domain.Validation.{
  is_valid_message_md_length, Validation, valid, invalid, message_too_long, non_neighbor_routing,
  target_inactive,
}

abbrev pub max_hops_per_round : ℕ
max_hops_per_round = 20

pub record MessageRoutingValidationParams : Type 0 where
  pub sender : Text
  pub recipient : Text
  pub content : Text
  pub hop : ℕ
  pub active_neighbors : List Text

-- `targetUpper === "SELF" || targetUpper === "STOP"`
unfoldable pub is_self_or_stop : Text → Bool
is_self_or_stop recipient =
    let target_upper = to_upper (trim recipient) in
    text_eq target_upper (codes "SELF") || text_eq target_upper (codes "STOP")

unfoldable pub validate_message_routing :
    MessageRoutingValidationParams → Result GridError Validation
validate_message_routing p =
    if not (is_valid_message_md_length p.content)
    then ok (invalid message_too_long)
    else if is_self_or_stop p.recipient
    then ok valid
    else if text_eq p.recipient p.sender
    then ok valid
    else do
      near ← is_direct_neighbor p.sender p.recipient
      ok (
          if not near
          then invalid non_neighbor_routing
          else if not (includes p.active_neighbors p.recipient)
          then invalid target_inactive
          else valid)

unfoldable pub is_hop_limit_reached : ℕ → Bool
is_hop_limit_reached hop = leb max_hops_per_round hop

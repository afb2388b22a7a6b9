-- ===== src/Runtime/Effects/Messages.antt =====
-- The texts of `errorCode` and `errorMessage` in packages/domain/src/energy/conservation.ts and
-- packages/domain/src/router/routing_rules.ts.
use emergent_inc.Common.{◌++◌, Text, codes}
use emergent_inc.Domain.Validation.{
  Number, integer, ErrorCode, sender_inactive, invalid_amount, self_transfer_disallowed,
  non_neighbor_transfer, target_not_found, insufficient_energy, message_too_long,
  non_neighbor_routing, target_inactive, parent_inactive, invalid_child_energy,
  insufficient_energy_for_reproduction, invalid_reproduction_direction, target_position_occupied,
  child_mind_too_long,
}
use emergent_inc.Domain.Energy.{EnergyTransferValidationParams}
use emergent_inc.Domain.Routing.{MessageRoutingValidationParams}

unfoldable pub code_text : ErrorCode → Text
code_text sender_inactive = codes "SENDER_INACTIVE"
code_text invalid_amount = codes "INVALID_AMOUNT"
code_text self_transfer_disallowed = codes "SELF_TRANSFER_DISALLOWED"
code_text non_neighbor_transfer = codes "NON_NEIGHBOR_TRANSFER"
code_text target_not_found = codes "TARGET_NOT_FOUND"
code_text insufficient_energy = codes "INSUFFICIENT_ENERGY"
code_text message_too_long = codes "MESSAGE_TOO_LONG"
code_text non_neighbor_routing = codes "NON_NEIGHBOR_ROUTING"
code_text target_inactive = codes "TARGET_INACTIVE"
code_text parent_inactive = codes "PARENT_INACTIVE"
code_text invalid_child_energy = codes "INVALID_CHILD_ENERGY"
code_text insufficient_energy_for_reproduction = codes "INSUFFICIENT_ENERGY_FOR_REPRODUCTION"
code_text invalid_reproduction_direction = codes "INVALID_REPRODUCTION_DIRECTION"
code_text target_position_occupied = codes "TARGET_POSITION_OCCUPIED"
code_text child_mind_too_long = codes "CHILD_MIND_TOO_LONG"

unfoldable pub transfer_message :
    (Number → Text) → EnergyTransferValidationParams → ErrorCode → Text
transfer_message to_string p sender_inactive =
    codes "Sender pixel '" ++ p.from_pixel_id ++ codes "' is inactive"
transfer_message to_string p invalid_amount =
    codes "Transfer amount must be a positive integer, got " ++ to_string p.amount
transfer_message to_string p self_transfer_disallowed = codes "Self transfer is disallowed"
transfer_message to_string p non_neighbor_transfer =
    codes "Target '"
    ++ p.to_pixel_id
    ++ codes "' is not a direct 6-neighbor of '"
    ++ p.from_pixel_id
    ++ codes "'"
transfer_message to_string p target_not_found =
    codes "Target pixel '" ++ p.to_pixel_id ++ codes "' does not exist"
transfer_message to_string p insufficient_energy =
    codes "Sender energy "
    ++ to_string (integer p.from_energy)
    ++ codes " is less than requested transfer "
    ++ to_string p.amount
transfer_message to_string p other = codes "Transfer validation failed"

unfoldable pub routing_message : MessageRoutingValidationParams → ErrorCode → Text
routing_message p message_too_long = codes "Message content exceeds 2000 code points limit"
routing_message p non_neighbor_routing =
    codes "Recipient '"
    ++ p.recipient
    ++ codes "' is not a direct 6-neighbor of '"
    ++ p.sender
    ++ codes "'"
routing_message p target_inactive =
    codes "Recipient '" ++ p.recipient ++ codes "' is not currently active"
routing_message p other = codes "Routing validation failed"

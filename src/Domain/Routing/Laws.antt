-- ===== src/Domain/Routing/Laws.antt =====
-- `validateMessageRouting` against the messages that may be delivered.
use emergent_inc.Common.{◌≡◌, ◌⊎◌, true, includes}
use emergent_inc.Grid.Adjacency.{Near}
use emergent_inc.Domain.Routing.{MessageRoutingValidationParams, is_self_or_stop}

abbrev pub IsReachable : MessageRoutingValidationParams → Type 0
IsReachable p =
    (is_self_or_stop p.recipient ≡ true)
    ⊎ ((p.recipient ≡ p.sender)
        ⊎ (Near p.sender p.recipient × (includes p.active_neighbors p.recipient ≡ true)))

-- ===== src/Tests/Transfers.antt =====
-- Transfers and routes at concrete inputs.
use emergent_inc.Common.{
  includes, [], codes, false, none, ok, refl, some, text_eq, true, ◌++◌, ◌+◌, ◌∷◌, ◌≡◌, ◌⊎◌,
}
use emergent_inc.Common.Int.{pos, negsuc, ◌+ℤ◌, ◌-ℤ◌}
use emergent_inc.Domain.Validation.{integer, is_not_positive_integer}
use emergent_inc.Domain.Energy.{validate_energy_transfer, is_below}
use emergent_inc.Grid.{is_direct_neighbor, id_to_coord, coord_to_id}
use emergent_inc.Grid.Number.{split, parse_int, print_int}
use emergent_inc.CoreStore.Pixels.{get_pixel_account, update_energy, moved}
use emergent_inc.CoreStore.Ledger.{append_entry, ledger_row, current_binding}
use emergent_inc.CoreStore.Refill.{ensure_unlimited_energy}
use emergent_inc.Store.Table.{select_first, update_where}
use emergent_inc.Store.{Db, PixelRow, applied, queued, pixel}
use emergent_inc.CoreStore.Pixels.Energy.{HasUniquePixels, energy_of, total_energy}
use emergent_inc.Runtime.Effects.{EffectRuntimeContext, BaseEffect, record_effect}
use emergent_inc.Runtime.Effects.Transfer.{
  is_denied, transfer_params, apply_valid_transfer, move_energy, TransferEnergyEffect, amount_of,
  apply_transfer_energy,
}
use emergent_inc.Runtime.Effects.Route.{RouteMessageEffect, real_recipient}
use emergent_inc.Runtime.Effects.Conservation.{apply_transfer_energy-conserves}
use emergent_inc.Tests.Fixtures.{origin, beside, world, pixel_row, run_1}
use emergent_inc.Store.Table.{exists_where}
use emergent_inc.Grid.Number.{to_upper}

abbrev neighbour : PixelRow
neighbour = record pixel_row { pixel_id = beside; energy = 5 }

abbrev two_pixels : Db
two_pixels = record world { pixel_accounts = pixel_row ∷ neighbour ∷ [] }

abbrev context : EffectRuntimeContext
context = record {
  round = 3;
  run_id = some run_1;
  execution_scope = none;
  company_run = λ _. false;
  unlimited = λ _. false;
  uuid = λ key db. key;
  fresh_id = codes "msg_new";
  now = 9;
  to_string = λ n. codes "number";
}

abbrev base : BaseEffect
base = record {
  effect_id = codes "eff_1";
  message_id = codes "msg_1";
  effect_index = 0;
  payload_hash = codes "hash";
}

abbrev transfer : TransferEnergyEffect
transfer = record {
  base = base;
  from_pixel_id = origin;
  transfer = record { target = beside; amount = integer (pos 30) };
}

abbrev transferred : Db
transferred = record two_pixels {
  pixel_accounts = record pixel_row { energy = 970 } ∷ record neighbour { energy = 35 } ∷ [];
  ledger_entries =
      record {
        entry_id = codes "eff_1_out";
        pixel_id = origin;
        binding_id = some (codes "binding_1");
        entry_type = codes "transfer_out";
        amount = negsuc 29;
        balance_after = 970;
      }
      ∷ record {
        entry_id = codes "eff_1_in";
        pixel_id = beside;
        binding_id = none;
        entry_type = codes "transfer_in";
        amount = pos 30;
        balance_after = 35;
      }
      ∷ [];
  effects =
      record {
        effect_id = codes "eff_1";
        message_id = codes "msg_1";
        effect_index = 0;
        payload_hash = codes "hash";
        status = applied;
      }
      ∷ [];
}

transfer_run : apply_transfer_energy context transfer two_pixels ≡ ok transferred
unfolding apply_transfer_energy is_denied transfer_params get_pixel_account select_first text_eq
    validate_energy_transfer is_not_positive_integer is_direct_neighbor id_to_coord split parse_int
    includes coord_to_id print_int ◌+ℤ◌ ◌-ℤ◌ apply_valid_transfer move_energy
    ensure_unlimited_energy update_energy moved update_where append_entry exists_where ledger_row
    current_binding record_effect is_below
transfer_run = refl

two_pixels-HasUniquePixels : HasUniquePixels two_pixels
unfolding exists_where text_eq
two_pixels-HasUniquePixels = (refl, (refl, tt))

apply_transfer_energy-conserves_example :
    (total_energy transferred ≡ total_energy two_pixels)
    × HasUniquePixels transferred
    × ((transferred.pixel_accounts ≡ two_pixels.pixel_accounts)
        ⊎ ((energy_of origin transferred + amount_of transfer.transfer.amount
              ≡ energy_of origin two_pixels)
            × (energy_of beside transferred
                ≡ energy_of beside two_pixels + amount_of transfer.transfer.amount)))
apply_transfer_energy-conserves_example =
    apply_transfer_energy-conserves context transfer two_pixels transferred
      two_pixels-HasUniquePixels refl transfer_run

abbrev route : RouteMessageEffect
route = record {
  base = base;
  sender = origin;
  recipient = beside;
  content = codes "hello";
  hop = 2;
}

-- The validation trims the recipient, the delivery does not.
padded_self_kept : real_recipient (record route { recipient = codes " SELF " }) ≡ codes " SELF "
unfolding real_recipient text_eq to_upper
padded_self_kept = refl

abbrev routed : Db
routed = record two_pixels {
  messages =
      two_pixels.messages
      ++ record {
        message_id = codes "msg_new";
        run_id = some run_1;
        execution_id = none;
        round_num = 3;
        hop = 2;
        sender = origin;
        recipient = beside;
        content = codes "hello";
        sender_binding_id = some (codes "binding_1");
        recipient_binding_id = none;
        binding_snapshot_captured = true;
        narrative_revision = none;
        identity_snapshot_captured = false;
        status = queued;
        abandoned_reason = none;
        is_feedback = false;
        source_type = pixel;
        created_at = 9;
      }
        ∷ [];
  effects = transferred.effects;
}

-- ===== src/Runtime/Effects/Conservation.antt =====
-- `applyTransferEnergy` and the energy of all pixels.
use emergent_inc.Common.{
  ℕ, ◌+◌, ◌≤◌, ◌≡◌, ◌∙◌, ◌⊎◌, inl, inr, sym, ap, subst, arith, false, some, ◌++◌, Text, codes,
  text_eq, text_eq_comm, ok, >>=-eq-ok, or_throw, or_throw-eq-ok, ok-injective, Bool-cases,
  Result-cases,
}
use emergent_inc.Common.Int.{pos, ◌-ℤ◌}
use emergent_inc.Domain.Validation.{valid, invalid}
use emergent_inc.Domain.Energy.{validate_energy_transfer}
use emergent_inc.Domain.Energy.Laws.{MayTransfer, validate_energy_transfer_iff}
use emergent_inc.Store.{Db}
use emergent_inc.Store.Table.{select_first}
use emergent_inc.Store.Unique.{HasUniqueKeys, total}
use emergent_inc.Messages.Types.{EnqueueParams}
use emergent_inc.Messages.Queue.{enqueue_message, insert_message}
use emergent_inc.CoreStore.Pixels.{has_id, get_pixel_account, update_energy}
use emergent_inc.CoreStore.Pixels.Energy.{
  energy_in, energy_of, total_energy, HasUniquePixels, update_energy-Gains, update_energy-Loses,
  update_energy-others, update_energy-OnlyAccounts,
}
use emergent_inc.CoreStore.Ledger.{LedgerEntry, append_entry}
use emergent_inc.CoreStore.Rewards.Growth.{append_entry-appends}
use emergent_inc.CoreStore.Refill.{ensure_unlimited_energy}
use emergent_inc.Runtime.Effects.{
  pixel_missing, entry_taken, EffectRuntimeContext, enqueue, record_effect,
}
use emergent_inc.Runtime.Effects.Transfer.{
  TransferEnergyEffect, is_denied, transfer_params, refuse, amount_of, transfer_entry,
  of_budget_error, move_energy, apply_valid_transfer, apply_transfer_energy,
}

-- The accounts are the same.
abbrev SameAccounts : Db → Db → Type 0
SameAccounts db db' = db'.pixel_accounts ≡ db.pixel_accounts

enqueue-SameAccounts :
    (ctx : EffectRuntimeContext) (p : EnqueueParams) (db db' : Db)
    → enqueue ctx p db ≡ ok db'
    → SameAccounts db db'
unfolding enqueue enqueue_message insert_message
enqueue-SameAccounts ctx p db db' e = ground arith

append_entry-SameAccounts :
    (entry : LedgerEntry) (db db' : Db) → append_entry entry db ≡ some db' → SameAccounts db db'
append_entry-SameAccounts entry db db' e =
    ap (λ d. d.pixel_accounts) (append_entry-appends entry db db' e)

refuse-SameAccounts :
    (ctx : EffectRuntimeContext) (effect : TransferEnergyEffect) (code message : Text) (db db' : Db)
    → refuse ctx effect code message db ≡ ok db'
    → SameAccounts db db'
unfolding refuse record_effect
refuse-SameAccounts ctx effect code message db db' e =
    let (told, et, e1) = >>=-eq-ok (enqueue ctx _ db) _ e in
    sym (ap (λ d. d.pixel_accounts) (ok-injective _ db' e1)) ∙ enqueue-SameAccounts ctx _ db told et

-- An amount goes from one pixel to another.
record Moves (source target : Text) (amount : ℕ) (db db' : Db) : Type 0 where
  taken : energy_of source db' + amount ≡ energy_of source db
  given : energy_of target db' ≡ energy_of target db + amount
  all : total_energy db' ≡ total_energy db
  unique : HasUniquePixels db'

two_updates-Moves :
    (source target : Text) (amount : ℕ) (db : Db) (a b : ℕ × Db)
    → HasUniquePixels db
    → text_eq source target ≡ false
    → amount ≤ energy_of source db
    → update_energy source (pos 0 -ℤ pos amount) db ≡ some a
    → update_energy target (pos amount) a.1 ≡ some b
    → Moves source target amount db b.1
two_updates-Moves source target amount db a b unique apart enough ea eb =
    let loses = update_energy-Loses source amount db a unique enough ea in
    let (_, unique') = update_energy-OnlyAccounts source (pos 0 -ℤ pos amount) db a unique ea in
    let (gains, _) = update_energy-Gains target amount b.0 a.1 b.1 unique' eb in
    let apart' = text_eq_comm target source ∙ apart in
    record {
      taken =
          omega (arith, loses.own, update_energy-others target source (pos amount) a.1 b apart' eb);
      given = omega (
        arith,
        gains.own,
        update_energy-others source target (pos 0 -ℤ pos amount) db a apart ea,
      );
      all = omega (arith, loses.all, gains.all);
      unique = (update_energy-OnlyAccounts target (pos amount) a.1 b unique' eb).1;
    }

Moves-SameAccounts :
    (source target : Text) (amount : ℕ) (a b c : Db)
    → Moves source target amount a b
    → SameAccounts b c
    → Moves source target amount a c
unfolding get_pixel_account
Moves-SameAccounts source target amount a b c h same = record {
  taken =
      subst (λ rows. energy_in (select_first (has_id source) rows) + amount ≡ energy_of source a)
        (sym same) h.taken;
  given =
      subst (λ rows. energy_in (select_first (has_id target) rows) ≡ energy_of target a + amount)
        (sym same) h.given;
  all =
      subst (λ rows. total (λ p. p.pixel_id) (λ p. p.energy) rows ≡ total_energy a) (sym same)
        h.all;
  unique = subst (HasUniqueKeys (λ p. p.pixel_id)) (sym same) h.unique;
}

move_energy-Moves :
    (ctx : EffectRuntimeContext) (effect : TransferEnergyEffect) (amount : ℕ) (db db' : Db)
    → HasUniquePixels db
    → ctx.unlimited effect.from_pixel_id ≡ false
    → text_eq effect.from_pixel_id effect.transfer.target ≡ false
    → amount ≤ energy_of effect.from_pixel_id db
    → move_energy ctx effect amount db ≡ ok db'
    → Moves effect.from_pixel_id effect.transfer.target amount db db'
unfolding move_energy ensure_unlimited_energy
move_energy-Moves ctx effect amount db db' unique own apart enough e =
    let source = effect.from_pixel_id in
    let target = effect.transfer.target in
    let id = effect.base.effect_id in
    let (a, ea, e1) =
      >>=-eq-ok
        (of_budget_error (
          ensure_unlimited_energy ctx.uuid ctx.unlimited source amount (codes "transfer:" ++ id)
            db))
        _ e in
    let kept : db ≡ a = ok-injective db a (rw (own, ensure_unlimited_energy) at ea) in
    let (b, eb, e2) =
      >>=-eq-ok (or_throw pixel_missing (update_energy source (pos 0 -ℤ pos amount) a)) _ e1 in
    let (c, ec, e3) =
      >>=-eq-ok (or_throw pixel_missing (update_energy target (pos amount) b.1)) _ e2 in
    let (d, ed, e4) =
      >>=-eq-ok
        (or_throw entry_taken (
          append_entry
            (transfer_entry (id ++ codes "_out") source (codes "transfer_out") (pos 0 -ℤ pos amount)
              b.0)
            c.1))
        _ e3 in
    let noted = append_entry-SameAccounts _ c.1 d (or_throw-eq-ok entry_taken _ ed) in
    let noted' = append_entry-SameAccounts _ d db' (or_throw-eq-ok entry_taken _ e4) in
    let taken =
      subst (λ x. update_energy source (pos 0 -ℤ pos amount) x ≡ some b) (sym kept)
        (or_throw-eq-ok pixel_missing _ eb) in
    Moves-SameAccounts source target amount db c.1 db'
      (two_updates-Moves source target amount db b c unique apart enough taken
        (or_throw-eq-ok pixel_missing _ ec))
      (noted' ∙ noted)

sender_apart :
    (ctx : EffectRuntimeContext) (effect : TransferEnergyEffect) (db : Db)
    → validate_energy_transfer (transfer_params ctx effect db) ≡ ok valid
    → text_eq effect.from_pixel_id effect.transfer.target ≡ false
unfolding validate_energy_transfer transfer_params
sender_apart ctx effect db passes = ground arith

sender_covers :
    (ctx : EffectRuntimeContext) (effect : TransferEnergyEffect) (db : Db)
    → ctx.unlimited effect.from_pixel_id ≡ false
    → ctx.company_run ctx.run_id ≡ false
    → MayTransfer (transfer_params ctx effect db)
    → amount_of effect.transfer.amount ≤ energy_of effect.from_pixel_id db
unfolding transfer_params
sender_covers ctx effect db own ordinary may =
    ground (arith, own, ordinary, may.amount_is, may.covered)

apply_valid-conserves :
    (ctx : EffectRuntimeContext) (effect : TransferEnergyEffect) (db db' : Db)
    → HasUniquePixels db
    → ctx.unlimited effect.from_pixel_id ≡ false
    → validate_energy_transfer (transfer_params ctx effect db) ≡ ok valid
    → apply_valid_transfer ctx effect db ≡ ok db'
    → SameAccounts db db'
      ⊎ Moves effect.from_pixel_id effect.transfer.target (amount_of effect.transfer.amount) db db'
unfolding apply_valid_transfer record_effect
apply_valid-conserves ctx effect db db' unique own passes e =
    elim (Bool-cases (ctx.company_run ctx.run_id)) [
      | inl company ↦ inl (
          sym (
            ap (λ d. d.pixel_accounts)
              (ok-injective _ db' (rw (company, apply_valid_transfer) at e))))
      | inr ordinary ↦
          let source = effect.from_pixel_id in
          let target = effect.transfer.target in
          let amount = amount_of effect.transfer.amount in
          let (moved, em, e1) =
            >>=-eq-ok (move_energy ctx effect amount db) _
              (rw (ordinary, apply_valid_transfer) at e) in
          let may = (validate_energy_transfer_iff (transfer_params ctx effect db)).0 passes in
          inr (
            Moves-SameAccounts source target amount db moved db'
              (move_energy-Moves ctx effect amount db moved unique own
                (sender_apart ctx effect db passes) (sender_covers ctx effect db own ordinary may)
                em)
              (sym (ap (λ d. d.pixel_accounts) (ok-injective _ db' e1))))
    ]

apply_transfer_energy_outcome :
    (ctx : EffectRuntimeContext) (effect : TransferEnergyEffect) (db db' : Db)
    → HasUniquePixels db
    → ctx.unlimited effect.from_pixel_id ≡ false
    → apply_transfer_energy ctx effect db ≡ ok db'
    → SameAccounts db db'
      ⊎ Moves effect.from_pixel_id effect.transfer.target (amount_of effect.transfer.amount) db db'
unfolding apply_transfer_energy
apply_transfer_energy_outcome ctx effect db db' unique own e =
    elim (Bool-cases (is_denied ctx.execution_scope effect.transfer.target)) [
      | inl denied ↦
          inl (refuse-SameAccounts ctx effect _ _ db db' (rw (denied, apply_transfer_energy) at e))
      | inr allowed ↦
          elim (Result-cases (validate_energy_transfer (transfer_params ctx effect db))) [
            | inr (x, threw) ↦
                absurd (ground (arith, rw (allowed, threw, apply_transfer_energy) at e))
            | inl (invalid code, fails) ↦ inl (
                refuse-SameAccounts ctx effect _ _ db db'
                  (rw (allowed, fails, apply_transfer_energy) at e))
            | inl (valid, passes) ↦
                apply_valid-conserves ctx effect db db' unique own passes
                  (rw (allowed, passes, apply_transfer_energy) at e)
          ]
    ]

-- Energy is conserved: whatever the scope, the two accounts and the amount are, an application of a
-- transfer that does not throw, by a sender whose energy the owner's policy does not refill, in a
-- table with one row for each pixel, leaves the sum of all pixels' energy as it was. Either no
-- account changes, or the sender has the amount less and the receiver has it more, both exactly.
pub apply_transfer_energy-conserves :
    (ctx : EffectRuntimeContext) (effect : TransferEnergyEffect) (db db' : Db)
    → HasUniquePixels db
    → ctx.unlimited effect.from_pixel_id ≡ false
    → apply_transfer_energy ctx effect db ≡ ok db'
    → (total_energy db' ≡ total_energy db)
      × HasUniquePixels db'
      × ((db'.pixel_accounts ≡ db.pixel_accounts)
          ⊎ ((energy_of effect.from_pixel_id db' + amount_of effect.transfer.amount
                ≡ energy_of effect.from_pixel_id db)
              × (energy_of effect.transfer.target db'
                  ≡ energy_of effect.transfer.target db + amount_of effect.transfer.amount)))
unfolding apply_transfer_energy
apply_transfer_energy-conserves ctx effect db db' unique own e =
    elim (apply_transfer_energy_outcome ctx effect db db' unique own e) [
      | inl same ↦ (
        ap (total (λ p. p.pixel_id) (λ p. p.energy)) same,
        subst (HasUniqueKeys (λ p. p.pixel_id)) (sym same) unique,
        inl same,
      )
      | inr moves ↦ (moves.all, moves.unique, inr (moves.taken, moves.given))
    ]

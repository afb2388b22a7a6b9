-- ===== src/Tests/Budgets.antt =====
-- The budget and the executions at concrete inputs.
use emergent_inc.Common.{
  includes, none, All, ◌≡◌, ◌≤◌, ◌↔◌, refl, false, some, List, [], ◌∷◌, codes, Result, ok, err,
  text_eq, arith, ok-injective, ap, sym,
}
use emergent_inc.Common.Int.{pos}
use emergent_inc.Domain.Validation.{integer}
use emergent_inc.Store.{mission, Db}
use emergent_inc.Store.Table.{exists_where, select_first, sum_where, update_where, count_where}
use emergent_inc.Store.Keys.{truthy, is_id, optional_text_eq}
use emergent_inc.Budget.Types.{BudgetError, run_limit_kind}
use emergent_inc.Budget.Operations.{
  check_identity, check_pixel, check_run, check_execution, record_reservation, recorded, reserve,
  settle, refund, safe_nat,
}
use emergent_inc.Budget.Accounting.{IsAccounted}
use emergent_inc.Budget.Books.{
  RefillKeepsBooks, Request, reserve_call, settle_call, refund_call, perform_all,
  perform_all-IsAccounted,
}
use emergent_inc.Budget.Capacity.{
  TokenCapacity, capacity, get_available_token_capacity, run_capacities, execution_capacities,
  lowest,
}
use emergent_inc.Budget.Capacity.Laws.{reserve_iff_within_capacity}
use emergent_inc.Budget.Limits.{HasUniqueRuns, IsWithinLimit, reserve-IsWithinLimit}
use emergent_inc.Budget.Settlement.{IsUndone, refund-recorded, settle-once}
use emergent_inc.Executions.Operations.{
  ExecutionError, begin_scope_round, reserve_tokens, safe_positive,
}
use emergent_inc.Grid.Number.{trim}
use emergent_inc.Executions.Creation.{
  CreateExecutionInput, create, AreExclusive, create-AreExclusive,
}
use emergent_inc.Executions.Limits.{AreWithin}
use emergent_inc.Executions.Steps.{reserving, Step-AreWithin}
use emergent_inc.Executions.Rounds.{IsBegun, begin_scope_round-once}
use emergent_inc.Store.Unique.{HasUniqueKeys}
use emergent_inc.Tests.Fixtures.{
  execution_1, run_row, scoped_run_row, execution_row, world, plain_policy, call_1,
}

pub plain_policy-keeps : RefillKeepsBooks plain_policy
plain_policy-keeps = λ id n key db db' e. record {
  runs = ap (λ d. d.runs) (sym (ok-injective db db' e));
  executions = ap (λ d. d.executions) (sym (ok-injective db db' e));
  reservations = ap (λ d. d.reservations) (sym (ok-injective db db' e));
  global_budget = ap (λ d. d.global_budget) (sym (ok-injective db db' e));
}

pub world-IsAccounted : IsAccounted world
unfolding sum_where
world-IsAccounted = record {
  unique = tt;
  by_run = (refl, (refl, tt));
  by_execution = (refl, tt);
  global = refl;
}

abbrev history : List Request
history =
    reserve_call call_1
    ∷ settle_call (codes "call_1") (some (integer (pos 40)))
    ∷ reserve_call call_1
    ∷ refund_call (codes "call_2")
    ∷ []

perform_all-IsAccounted_example : IsAccounted (perform_all plain_policy history world)
perform_all-IsAccounted_example =
    perform_all-IsAccounted plain_policy history world plain_policy-keeps world-IsAccounted

fresh : exists_where (λ r. text_eq r.call_id call_1.call_id) world.reservations ≡ false
unfolding exists_where
fresh = refl

checked : check_identity call_1 world ≡ ok world
unfolding check_identity truthy
checked = refl

abbrev room : TokenCapacity
room = capacity run_limit_kind 500

capacity_is : get_available_token_capacity plain_policy call_1 world ≡ ok room
unfolding get_available_token_capacity select_first text_eq run_capacities optional_text_eq
    execution_capacities truthy lowest
capacity_is = refl

reserve_iff_within_capacity_example :
    (reserve plain_policy call_1 world ≡ ok (recorded call_1 world)) ↔ (100 ≤ 500)
reserve_iff_within_capacity_example =
    reserve_iff_within_capacity plain_policy call_1 world world room refl (omega arith) checked refl
      fresh capacity_is

pub reserves : reserve plain_policy call_1 world ≡ ok (recorded call_1 world)
unfolding reserve check_identity check_pixel check_run check_execution record_reservation truthy
    select_first text_eq exists_where optional_text_eq
reserves = refl

world-HasUniqueRuns : HasUniqueRuns world.runs
unfolding exists_where text_eq
world-HasUniqueRuns = (refl, (refl, tt))

reserve-IsWithinLimit_example : All IsWithinLimit (recorded call_1 world).runs
reserve-IsWithinLimit_example =
    reserve-IsWithinLimit plain_policy call_1 world (recorded call_1 world) plain_policy-keeps refl
      world-HasUniqueRuns (omega arith, (omega arith, tt)) reserves

refund-recorded_example : IsUndone call_1 world (refund (codes "call_1") (recorded call_1 world))
refund-recorded_example = refund-recorded call_1 world fresh

abbrev result_or_world : Result BudgetError Db → Db
result_or_world (ok db) = db
result_or_world (err e) = world

abbrev settled_world : Db
settled_world =
    result_or_world
      (settle plain_policy (codes "call_1") (some (integer (pos 40))) (recorded call_1 world))

settles :
    settle plain_policy (codes "call_1") (some (integer (pos 40))) (recorded call_1 world)
    ≡ ok settled_world
unfolding settle safe_nat recorded select_first text_eq
settles = refl

safe_70 : safe_nat (integer (pos 70)) ≡ some 70
unfolding safe_nat
safe_70 = refl

settle-once_example :
    (refund (codes "call_1") settled_world ≡ settled_world)
    × (settle plain_policy (codes "call_1") (some (integer (pos 70))) settled_world
        ≡ ok settled_world)
settle-once_example =
    settle-once plain_policy (codes "call_1") (integer (pos 40)) (integer (pos 70)) 70
      (recorded call_1 world) settled_world settles safe_70

abbrev counted_world : Db
counted_world = record world {
  runs = run_row ∷ record scoped_run_row { last_scope_round = some 3 } ∷ [];
  executions = record execution_row { rounds_used = 1 } ∷ [];
}

round_begun : begin_scope_round execution_1 (codes "run_2") 3 world ≡ ok (1, counted_world)
unfolding begin_scope_round select_first text_eq is_id count_where update_where
round_begun = refl

one_execution : HasUniqueKeys (λ e. e.execution_id) world.executions
unfolding exists_where
one_execution = (refl, tt)

begin_scope_round-once_example :
    IsBegun execution_1 (codes "run_2") 3 1 world counted_world
    × (begin_scope_round execution_1 (codes "run_2") 3 counted_world ≡ ok (1, counted_world))
begin_scope_round-once_example =
    begin_scope_round-once execution_1 (codes "run_2") 3 1 world counted_world one_execution
      round_begun

abbrev reserved_world : Db
reserved_world = record world { executions = record execution_row { reserved_tokens = 250 } ∷ [] }

tokens_reserved : reserve_tokens execution_1 (integer (pos 250)) world ≡ ok reserved_world
unfolding reserve_tokens safe_positive count_where text_eq update_where
tokens_reserved = refl

world-AreWithin : AreWithin world
world-AreWithin = ((omega arith, omega arith), tt)

Step-AreWithin_example : AreWithin reserved_world
Step-AreWithin_example =
    Step-AreWithin world reserved_world (reserving execution_1 (integer (pos 250)) tokens_reserved)
      world-AreWithin

abbrev new_mission : CreateExecutionInput
new_mission = record {
  execution_id = none;
  kind = mission;
  subject_id = codes "mission_2";
  budget_tokens = integer (pos 900);
  rounds_limit = integer (pos 8);
  binding_ids = codes "binding_1" ∷ [];
}

abbrev db_or_world : Result ExecutionError Db → Db
db_or_world (ok db) = db
db_or_world (err e) = world

abbrev staffed_world : Db
staffed_world = db_or_world (create new_mission (codes "execution_2") world)

creates : create new_mission (codes "execution_2") world ≡ ok staffed_world
unfolding create text_eq trim includes safe_positive exists_where
creates = refl

create-AreExclusive_example :
    AreExclusive staffed_world.execution_participants × AreWithin staffed_world
create-AreExclusive_example =
    create-AreExclusive new_mission (codes "execution_2") world staffed_world tt world-AreWithin
      creates

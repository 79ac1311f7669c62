-- ===== src/Dinners/Tests.antt =====
-- A list of three dinners.
use cs.Common.{ℕ, refl, ◌<◌, ◌≡◌, ◌⊎◌, true, arith, List, [], ◌∷◌, ◌++◌, none, some, update}
use cs.Dinners.{State, ok, null, rand_max, search_turn, insert_turn, delete_turn}
use cs.Dinners.Chain.{drop_at, node_at}
use cs.Dinners.Safe.{IsDinners}
use cs.Dinners.Turns.{insert_turn_lem, turns_lem, delete_turn-beyond}

abbrev three : State
three = record {
  number_guests = λ _. 4;
  next_dinner = update (update (λ _. 0) 10 30) 30 20;
  turkey_dinners = 10;
  dinner_count = 3;
}

abbrev nodes : List ℕ
nodes = 10 ∷ 30 ∷ 20 ∷ []

three-IsDinners : IsDinners three nodes
three-IsDinners = record {
  chain = (
    refl,
    omega arith,
    (refl, (refl, tt)),
    (refl, omega arith, (refl, tt), (refl, omega arith, tt, refl)),
  );
  count = refl;
}

insert_turn_lem_example :
    (st' : State) × (insert_turn 5 40 three ≡ ok st') × IsDinners st' (nodes ++ 40 ∷ [])
insert_turn_lem_example =
    insert_turn_lem 5 40 three nodes three-IsDinners (omega arith) (refl, (refl, (refl, tt)))
      (omega arith)

turns_lem_example :
    ((nodes ≡ [])
      × (search_turn 5 1000000000 three ≡ ok none)
      × (delete_turn 5 1000000000 three ≡ ok (three, none)))
    ⊎ ((j : ℕ) × (j < 3)
        × (search_turn 5 1000000000 three ≡ ok (some true))
        × (st' : State) × (delete_turn 5 1000000000 three ≡ ok (st', some (node_at j nodes)))
        × IsDinners st' (drop_at j nodes))
turns_lem_example = turns_lem 5 1000000000 three nodes three-IsDinners (omega arith) (omega arith)

delete_turn-beyond_example : delete_turn 5 rand_max three ≡ null
delete_turn-beyond_example =
    delete_turn-beyond 5 three nodes three-IsDinners (omega arith) (omega arith)

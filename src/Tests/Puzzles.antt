-- ===== src/Tests/Puzzles.antt =====
-- `ValidateBoard` on a level of the catalogue.
use queens.Prelude.{min, ◌≡◌, refl, ◌↔◌}
use queens.Prelude.Int.{pos, negsuc}
use queens.Prelude.Fallible.{done}
use queens.Board.{validate_board, count_solutions}
use queens.Board.Rules.{IsPuzzle}
use queens.Board.Count.{clear, completions, count_solutions_lem}
use queens.Board.Unique.{validate_board-iff_IsPuzzle}
use queens.Tests.Data.{level_size, level_regions, level_solution}

validate_board-iff_IsPuzzle_example :
    (validate_board (pos level_size) level_regions level_solution ≡ done tt)
    ↔ IsPuzzle (pos level_size) level_regions level_solution
validate_board-iff_IsPuzzle_example =
    validate_board-iff_IsPuzzle (pos level_size) level_regions level_solution

level-accepted : validate_board (pos level_size) level_regions level_solution ≡ done tt
unfolding validate_board
level-accepted = refl

count_solutions_lem_example :
    count_solutions level_size level_regions 2
    ≡ min 2 (
        completions level_regions level_size level_size 0
          (negsuc 1)
          (clear level_size)
          (clear level_size))
count_solutions_lem_example = count_solutions_lem level_size level_regions 2

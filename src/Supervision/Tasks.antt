-- ===== src/Supervision/Tasks.antt =====
-- src/domain.rs: the `HashMap` of the supervised tasks, as a map.
use resourcery.Base.{ℕ, ◌≡◌, Option, none, some, List, [], ◌∷◌, arith, ◌==◌, ==_iff, if◌then◌else◌}
use resourcery.Domain.{remove_task, insert_task}

-- `HashMap::get`.
abbrev pub find : ℕ → List (ℕ × ℕ) → Option ℕ
find id [] = none
find id ((i, g) ∷ rest) = if i == id then some g else find id rest

pub find-remove_task :
    (n id : ℕ) (tasks : List (ℕ × ℕ))
    → find id (remove_task n tasks) ≡ (if n == id then none else find id tasks)
unfolding remove_task
find-remove_task n id [] = ground arith
find-remove_task n id ((i, g) ∷ rest) =
    ground (arith, find-remove_task n id rest, ==_iff i n, ==_iff i id, ==_iff n id)

pub find-insert_task :
    (n g id : ℕ) (tasks : List (ℕ × ℕ))
    → find id (insert_task n g tasks) ≡ (if n == id then some g else find id tasks)
unfolding insert_task
find-insert_task n g id tasks = ground (arith, find-remove_task n id tasks)

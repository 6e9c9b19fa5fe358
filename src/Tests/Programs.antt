-- ===== src/Tests/Programs.antt =====
-- The programs of src/examples, from a thread that runs no generator.
use generator_rs.Base.{
  ℕ, List, ◌+◌, ◌*◌, ◌%◌, ◌≤◌, ◌≡◌, refl, word_mod, has, ltb, ◌==◌, ◌&&◌, arith,
}
use generator_rs.Gen.Types.{Reply, main}
use generator_rs.Gen.Machine.{returned, running, run}
use generator_rs.Coroutine.Refines.{thread}
use generator_rs.Examples.Range
use generator_rs.Examples.Pipe
use generator_rs.Examples.Cd
use generator_rs.Examples.Number
use generator_rs.Examples.Number.Divisors.{total}
use generator_rs.Tests.Coroutines.{start, empty, starts}

range_example :
    (total : ℕ) × (total * 2 + 5 ≡ 5 * 5)
    × ((steps : ℕ) × ((j : ℕ)
          → steps ≤ j
          → (run (Range.client 5 8 4096 8000) j (thread (start Range.Place.begins) empty)).focus
            ≡ returned (total % word_mod)))
range_example =
    Range.range_lem 5 8 4096 8000 (start Range.Place.begins) empty (starts Range.Place.begins)
      (record { stage = refl; free = refl; fits = refl; alone = refl })

pipe_example :
    (zs : List ℕ) × Pipe.Numbered 3 0 zs
    × ((steps : ℕ) × ((run
            (Pipe.client 3 8 16 4096 8192 8000 12000)
            steps
            (thread (start Pipe.Place.begins) empty)).focus
          ≡ running main (Pipe.Place.printed zs) Reply.unit))
pipe_example =
    Pipe.pipe_lem 3 8 16 4096 8192 8000 12000 (ground arith) (start Pipe.Place.begins) empty
      (starts Pipe.Place.begins) (record { stage = refl; free = refl; fits = refl; alone = refl })
      (record { stage = refl; free = refl; fits = refl; alone = refl })

cd_example :
    (steps : ℕ) × ((j : ℕ)
      → steps ≤ j
      → (run (Cd.client 1000 8 4096 8000) j (thread (start Cd.Place.begins) empty)).focus
        ≡ returned 0)
cd_example =
    Cd.cd_lem 1000 8 4096 8000 (start Cd.Place.begins) empty (starts Cd.Place.begins)
      (record { stage = refl; free = refl; fits = refl; alone = refl })

number_example :
    (zs : List ℕ) × ((x : ℕ) → has x zs ≡ (ltb x 10000 && total x == x))
    × ((steps : ℕ) × ((run
            (Number.client 10000 8 4096 8000)
            steps
            (thread (start Number.Place.begins) empty)).focus
          ≡ running main (Number.Place.tests 10000 zs) Reply.unit))
number_example =
    Number.number_lem 10000 8 4096 8000 (start Number.Place.begins) empty
      (starts Number.Place.begins) (record { stage = refl; free = refl; fits = refl; alone = refl })

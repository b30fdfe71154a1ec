-- ===== src/Tests/Dependencies.antt =====
-- An application that retains a database.
use resourcery.Base.{
  ◌<◌, ==_iff, ◌==◌, if◌then◌else◌, ℕ, ◌≡◌, refl, some, none, List, [], ◌∷◌, arith, update, Option,
}
use resourcery.Lifecycle
use resourcery.World.{World}
use resourcery.Reference.{strong, drop_ref, clone_ref}
use resourcery.Context.{allocate}
use resourcery.Ownership.{State, Reach, begin, after, creates, release}
use resourcery.Ownership.Reclamation.{IsRanked}
use resourcery.Tests.Samples.{sample, fresh, runs}

abbrev empty : State sample
empty = record { world = fresh; retains = λ g. []; outside = [] }

-- The generation 0 is the database, whose interface is 5.
abbrev database : State sample
database = record {
  world = allocate empty.world 1 none 5;
  retains = update empty.retains 0 [];
  outside = 0 ∷ [];
}

-- The generation 1 is the application; the reference to the database is moved into its interface.
abbrev pub wired : State sample
wired = record {
  world = allocate database.world 2 none 6;
  retains = update database.retains 1 (0 ∷ []);
  outside = 1 ∷ [];
}

pub wired_reached : Reach wired
unfolding runs allocate
wired_reached =
    after (after (begin (λ g. [])) (creates 1 none 5 [] [] (λ k. refl) refl))
      (creates 2 none 6 (0 ∷ []) [] (λ k. refl) refl)

-- The application is above the database.
pub wired-IsRanked : IsRanked (λ g. g) wired
wired-IsRanked h k l c = ground (arith, ==_iff k 0)

pub two_generations : 0 < wired.world.next_generation
unfolding runs allocate
two_generations = omega arith

abbrev after_release : Option (World sample) → List ℕ
after_release none = []
after_release (some w) = strong w 0 ∷ strong w 1 ∷ []

cascade : after_release (release wired.retains 2 wired.world (1 ∷ [])) ≡ 0 ∷ 0 ∷ []
unfolding runs allocate drop_ref Lifecycle.new release
cascade = refl

-- The database retains the application too: the end of the last reference outside ends neither.
cycle :
    after_release
      (release (λ g. if g == 0 then 1 ∷ [] else 0 ∷ []) 5 (clone_ref wired.world 1) (1 ∷ []))
    ≡ 1 ∷ 1 ∷ []
unfolding runs allocate drop_ref clone_ref Lifecycle.new release
cycle = refl
